-- ===== src/Compare/Total.antt =====
-- `cols_my[j]` is in range, and the count comes with a first difference: the comparison returns.
use mathlib.Core.List.Permᴰ
use mysql_redshift_agent.Prelude.{
  ℕ, zero, suc, ◌+◌, ◌≤◌, ◌<◌, ◌≡◌, ◌≢◌, inl, inr, Option, none, some, List, [], ◌∷◌, length,
  get_elem?, arith, Bool-cases, Option-cases, All, ◌==◌,
}
use mysql_redshift_agent.Prelude.Sort.{All-perm, sorted-perm}
use mysql_redshift_agent.Text.{Text, Unicode}
use mysql_redshift_agent.Value.{Runtime, Value, Row, value_eq, texts_le}
use mysql_redshift_agent.Compare.{
  Scan, uneven, index_error, counted, Difference, first_mismatch, record_first, scan, conclude,
  row_key, sort_rows, sort_error, compare_strict, compare,
}

module _ (r : Runtime) where
  -- The end of the loop from which `compare` goes on without an exception.
  abbrev Answers : Scan r → Type 0
  Answers (uneven i) = Unit
  Answers index_error = ⊥
  Answers (counted zero first) = Unit
  Answers (counted (suc n) none) = ⊥
  Answers (counted (suc n) (some d)) = Unit

  first_mismatch-lt :
      (j : ℕ) (m n : Row r) {i : ℕ} {a b : Value r}
      → first_mismatch r j m n ≡ some (i, a, b)
      → i < j + length m
  unfolding first_mismatch
  first_mismatch-lt j [] n h = absurd (cc)
  first_mismatch-lt j (x ∷ m) [] h = absurd (cc)
  first_mismatch-lt j (x ∷ m) (y ∷ n) h = elim (Bool-cases (value_eq r x y)) [
    | inl e ↦ omega (arith, first_mismatch-lt (suc j) m n (rw e at h))
    | inr e ↦ ground arith
  ]

  get_elem?-lt : (cols : List Text) (j : ℕ) → j < length cols → get_elem? cols j ≢ none
  get_elem?-lt [] j h = elim h [ ]
  get_elem?-lt (c ∷ cols) zero h = λ e. cc
  get_elem?-lt (c ∷ cols) (suc j) h = get_elem?-lt cols j (omega arith)

  record_first-some :
      (cols : List Text) (i : ℕ) (m : ℕ × Value r × Value r) (first : Option (Difference r))
      → m.0 < length cols
      → record_first r cols i m first ≢ none
  unfolding record_first
  record_first-some cols i (j, a, b) (some d) h = λ e. cc
  record_first-some cols i (j, a, b) none h = ground (arith, get_elem?-lt cols j h)

  Answers-some : (n : ℕ) (d : Difference r) → Answers (counted n (some d))
  Answers-some zero d = tt
  Answers-some (suc n) d = tt

  scan-Answers :
      (cols : List Text) (i : ℕ) (ms ns : List (Row r)) (count : ℕ) (first : Option (Difference r))
      → All (λ m. length m ≤ length cols) ms
      → Answers (counted count first)
      → Answers (scan r cols i ms ns count first)
  unfolding scan
  scan-Answers cols i [] ns count first h a = a
  scan-Answers cols i (m ∷ ms) [] count first h a = a
  scan-Answers cols i (m ∷ ms) (n ∷ ns) count first h a = elim (Bool-cases (length m == length n)) [
    | inr e ↦ rw (e, scan) tt
    | inl e ↦ elim (Option-cases (first_mismatch r 0 m n)) [
      | inl equal ↦ rw (e, equal, scan) (scan-Answers cols (suc i) ms ns count first h.1 a)
      | inr (d, differ) ↦ elim (Option-cases (record_first r cols i d first)) [
        | inl raised ↦ absurd (
            record_first-some cols i d first (omega (arith, first_mismatch-lt 0 m n differ, h.0))
              raised)
        | inr (f, kept) ↦
            rw (e, differ, kept, scan)
              (scan-Answers cols (suc i) ms ns (count + 1) (some f) h.1
                (Answers-some (count + 1) f))
      ]
    ]
  ]

  conclude-Answers : (total : ℕ) (s : Scan r) → Answers s → conclude r total s ≢ none
  unfolding conclude
  conclude-Answers total (uneven i) a = λ e. cc
  conclude-Answers total index_error a = absurd a
  conclude-Answers total (counted zero first) a = λ e. cc
  conclude-Answers total (counted (suc n) none) a = absurd a
  conclude-Answers total (counted (suc n) (some d)) a = λ e. cc

-- Where no MySQL row has more cells than there are column names, the comparison returns in every mode.
pub compare-ne-none :
    (r : Runtime) (u : Unicode) (my rs : List (Row r)) (cols_my cols_rs : List Text) (mode : Text)
    → All (λ m. length m ≤ length cols_my) my
    → compare r u my rs cols_my cols_rs mode ≢ none
unfolding compare compare_strict sort_rows
compare-ne-none r u my rs cols_my cols_rs mode h = ground (
  arith,
  Option-cases (sort_error r my rs),
  conclude-Answers r (length my) (scan r cols_my 0 (sort_rows r my) (sort_rows r rs) 0 none) (
      scan-Answers r cols_my 0 (sort_rows r my) (sort_rows r rs) 0 none
        (All-perm (λ m. length m ≤ length cols_my)
          (Permᴰ.symm (sorted-perm texts_le (row_key r) my)) h)
        tt),
)
