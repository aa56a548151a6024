-- ===== src/Web/Counts.antt =====
-- What `_run_mysql` and `_run_redshift` show of a result, and what they count.
use native.Mathlib.Numerals.{unary_clauses}
use mysql_redshift_agent.Prelude.{
  ℕ, zero, suc, ◌+◌, ◌≤◌, ◌<◌, ◌≡◌, ◌↔◌, refl, ap, true, false, some, List, [], ◌∷◌, map, length,
  take, length-take, length-drop, arith,
}
use mysql_redshift_agent.Text.{Text}
use mysql_redshift_agent.Value.{Runtime}
use mysql_redshift_agent.Driver.{Cursor, names_of, available}
use mysql_redshift_agent.Web.Run.{Display, Out, stringify, collect}

take-take_next {ℓ} : {A : Type ℓ} (n : ℕ) (xs : List A) → take n (take (suc n) xs) ≡ take n xs
take-take_next zero xs = refl
take-take_next (suc n) [] = refl
take-take_next (suc n) (x ∷ xs) = ap (λ ys. x ∷ ys) (take-take_next n xs)

pub take-take_suc {ℓ} : {A : Type ℓ} (n : ℕ) (xs : List A) → take n (take (n + 1) xs) ≡ take n xs
take-take_suc n xs = simp unary_clauses (take-take_next n xs)

module _ (r : Runtime) (s : Display r) (max_rows : ℕ) (cur : Cursor r) where
  -- The rows that are shown and counted, against the whole result.
  pub record Shows (out : Out r) : Type 0 where
    pub rows : out.rows ≡ map (map (stringify r s)) (take max_rows cur.rows)
    pub at_most : length (take max_rows cur.rows) ≤ max_rows
    pub truncated : (out.truncated ≡ true) ↔ (max_rows < length cur.rows)
    pub whole : out.truncated ≡ false → out.row_count ≡ length cur.rows
    pub one_less : out.truncated ≡ true → out.row_count + 1 ≡ length cur.rows

  -- A run with columns shows the first MAX_ROWS rows, says that the result is truncated exactly if it
  -- has more, and counts all rows of a result that is not truncated; for one that is truncated,
  -- `row_count` is one less than the number of its rows.
  pub collect-Shows :
      (c : Text) (cols : List Text)
      → cur.description ≡ some (c ∷ cols)
      → Shows (collect r s max_rows cur)
  unfolding collect available names_of
  collect-Shows c cols has =
      rw (has, take-take_suc max_rows cur.rows)
        (record {
          rows = refl;
          at_most = omega (arith, length-take max_rows cur.rows);
          truncated = ground (arith, length-take (max_rows + 1) cur.rows);
          whole =
              ground (arith, length-take max_rows cur.rows, length-take (max_rows + 1) cur.rows);
          one_less = ground (
            arith,
            length-take max_rows cur.rows,
            length-take (max_rows + 1) cur.rows,
            length-drop (max_rows + 1) cur.rows,
          );
        })
