-- ===== src/Compare.antt =====
-- `compare` of agent/tools/compare.py: the two result sets of a statement, strictly or leniently. The
-- texts of the reasons are constructors that hold what the messages show.
pub mod Modes
pub mod Counting
pub mod Strict
pub mod Reorder
pub mod Total
use mysql_redshift_agent.Prelude.{
  ℕ, zero, suc, ◌+◌, ◌-◌, Bool, true, false, ◌&&◌, not, Option, none, some, List, [], ◌∷◌, map,
  length, get_elem?, leb, ◌==◌, if◌then◌else◌,
}
use mysql_redshift_agent.Prelude.Sort.{sorted}
use mysql_redshift_agent.Text.{Text, Unicode, codes, text_eq, lower}
use mysql_redshift_agent.Value.{Runtime, Value, Normal, Row, normalize, value_eq, str_of, texts_le}

module _ (r : Runtime) where
  pub data Reason : Type 0 where
    skipped_by_user : Reason
    row_counts_differ : ℕ → ℕ → Reason
    row_counts_agree : ℕ → Reason
    column_counts_differ : ℕ → ℕ → Reason
    column_names_differ : List Text → List Text → Reason
    sort_failed : Text → Reason
    uneven_row : ℕ → Reason
    strictly_equal : ℕ → Reason
    -- how many rows of how many differ, and the first difference: row, column and the two values
    rows_differ : ℕ → ℕ → ℕ → Text → Value r → Value r → Reason

  -- The dict that `compare` returns; `diff_rows` is not always there.
  pub record Verdict : Type 0 where
    pub ok : Bool
    pub reason : Reason
    pub diff_rows : Option ℕ

  abbrev pub rejected : Reason → Verdict
  rejected why = record { ok = false; reason = why; diff_rows = none }

  abbrev pub accepted : Reason → Verdict
  accepted why = record { ok = true; reason = why; diff_rows = none }

  -- `first_diff`: row, column name, and the two values
  pub record Difference : Type 0 where
    pub row : ℕ
    pub column : Text
    pub mysql : Value r
    pub redshift : Value r

  -- The end of the loop over the rows: by the early return, by the IndexError of `cols_my[j]`, or with
  -- the count and the first difference.
  pub data Scan : Type 0 where
    uneven : ℕ → Scan
    index_error : Scan
    counted : ℕ → Option Difference → Scan

  -- The key of the sort.
  unfoldable pub row_key : Row r → List Text
  row_key row = map (λ v. str_of r (normalize r v)) row

  unfoldable pub sort_rows : List (Row r) → List (Row r)
  sort_rows rows = sorted texts_le row_key rows

  -- The exception of the key of the sort, on a value, on a row, and on all rows in their order.
  unfoldable pub key_error : Normal r → Option Text
  key_error (Normal.object o) = r.str_error o
  key_error _ = none

  unfoldable pub row_error : Row r → Option Text
  unfolding key_error
  row_error [] = none
  row_error (v ∷ row) = elim (key_error (normalize r v)) [ none ↦ row_error row | some e ↦ some e ]

  unfoldable pub rows_error : List (Row r) → Option Text
  unfolding row_error
  rows_error [] = none
  rows_error (row ∷ rows) = elim (row_error row) [ none ↦ rows_error rows | some e ↦ some e ]

  -- The exception of the two sorts.
  unfoldable pub sort_error : List (Row r) → List (Row r) → Option Text
  unfolding rows_error
  sort_error rows_my rows_rs = elim (rows_error rows_my) [
    | none ↦ rows_error rows_rs
    | some e ↦ some e
  ]

  -- The inner loop: the first pair of cells that are not equal, with its index.
  unfoldable pub first_mismatch : ℕ → Row r → Row r → Option (ℕ × Value r × Value r)
  first_mismatch j [] rr = none
  first_mismatch j (a ∷ rm) [] = none
  first_mismatch j (a ∷ rm) (b ∷ rr) =
      if value_eq r a b then first_mismatch (suc j) rm rr else some (j, a, b)

  -- `first_diff` after a difference at row i + 1, cell j
  unfoldable pub record_first :
      List Text → ℕ → ℕ × Value r × Value r → Option Difference → Option Difference
  record_first cols i m (some d) = some d
  record_first cols i (j, a, b) none = elim (get_elem? cols j) [
    | none ↦ none
    | some c ↦ some (record { row = i + 1; column = c; mysql = a; redshift = b })
  ]

  -- The outer loop, over the zip of the sorted rows. `first_diff` is `none` behind a difference only
  -- if `cols_my[j]` raised.
  unfoldable pub scan : List Text → ℕ → List (Row r) → List (Row r) → ℕ → Option Difference → Scan
  scan cols i [] rs count first = counted count first
  scan cols i (rm ∷ ms) [] count first = counted count first
  scan cols i (rm ∷ ms) (rr ∷ rs) count first = elim (length rm == length rr) [
    | false ↦ uneven (i + 1)
    | true ↦ elim (first_mismatch 0 rm rr) [
      | none ↦ scan cols (suc i) ms rs count first
      | some m ↦ elim (record_first cols i m first) [
        | none ↦ index_error
        | some d ↦ scan cols (suc i) ms rs (count + 1) (some d)
      ]
    ]
  ]

  -- What follows the loop. A count other than 0 comes with a difference.
  unfoldable pub conclude : ℕ → Scan → Option Verdict
  conclude total (uneven i) = some (rejected (uneven_row i))
  conclude total index_error = none
  conclude total (counted zero first) = some (accepted (strictly_equal total))
  conclude total (counted (suc n) none) = none
  conclude total (counted (suc n) (some d)) = some (record {
    ok = false;
    reason = rows_differ (suc n) total d.row d.column d.mysql d.redshift;
    diff_rows = some (suc n);
  })

  -- `[c.lower() for c in cols_my] != [c.lower() for c in cols_rs]`
  unfoldable pub same_names : List Text → List Text → Bool
  same_names [] [] = true
  same_names (a ∷ s) (b ∷ t) = text_eq a b && same_names s t
  same_names _ _ = false

  abbrev pub distance : ℕ → ℕ → ℕ
  distance a b = (a - b) + (b - a)

  unfoldable pub compare_strict :
      Unicode → List (Row r) → List (Row r) → List Text → List Text → Option Verdict
  compare_strict u rows_my rows_rs cols_my cols_rs =
      if not (length cols_my == length cols_rs)
      then some (rejected (column_counts_differ (length cols_my) (length cols_rs)))
      else if not (same_names (map (lower u) cols_my) (map (lower u) cols_rs))
      then some (rejected (column_names_differ cols_my cols_rs))
      else elim (sort_error rows_my rows_rs) [
        | some e ↦ some (rejected (sort_failed e))
        | none ↦
            conclude (length rows_my)
              (scan cols_my 0 (sort_rows rows_my) (sort_rows rows_rs) 0 none)
      ]

  -- `none` is an IndexError.
  unfoldable pub compare :
      Unicode → List (Row r) → List (Row r) → List Text → List Text → Text → Option Verdict
  compare u rows_my rows_rs cols_my cols_rs mode =
      if text_eq mode (codes "skipped")
      then some (accepted skipped_by_user)
      else if not (length rows_my == length rows_rs)
      then some (record {
        ok = false;
        reason = row_counts_differ (length rows_my) (length rows_rs);
        diff_rows = some (distance (length rows_my) (length rows_rs));
      })
      else if text_eq mode (codes "lenient")
      then some (accepted (row_counts_agree (length rows_my)))
      else compare_strict u rows_my rows_rs cols_my cols_rs
