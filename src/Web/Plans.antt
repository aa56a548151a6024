-- ===== src/Web/Plans.antt =====
-- How many lines the plans of webui/app.py have.
use Prim.Native.Nat.{min}
use mysql_redshift_agent.Prelude.{
  ℕ, ◌+◌, ◌≡◌, refl, ap, ◌∙◌, some, List, [], ◌∷◌, map, length, take, length-take, length-map,
  arith, All,
}
use mysql_redshift_agent.Text.{Text, codes, join}
use mysql_redshift_agent.Value.{Runtime, Normal, str_of}
use mysql_redshift_agent.Driver.{Cursor, names_of, fetched}
use mysql_redshift_agent.Web.Run.{
  Display, shown_cell, planned, stringify, collect, plan_lines, explain_mysql, first_cells,
  explain_redshift,
}
use mysql_redshift_agent.Web.Counts.{collect-Shows}

-- Rows of Redshift's single column.
abbrev pub IsOneColumn : (r : Runtime) → List (List (Normal r)) → Type 0
IsOneColumn r = All (λ row. (v : Normal r) × (row ≡ v ∷ []))

module _ (r : Runtime) (s : Display r) (max_rows : ℕ) (cur : Cursor r) (c : Text) (cols : List Text)
    (has : cur.description ≡ some (c ∷ cols)) where
  shown-length : length (collect r s max_rows cur).rows ≡ min max_rows (length cur.rows)
  shown-length =
      ap length (collect-Shows r s max_rows cur c cols has).rows
      ∙ length-map (take max_rows cur.rows) (map (stringify r s))
      ∙ length-take max_rows cur.rows

  columns_lem : (collect r s max_rows cur).columns ≡ c ∷ cols
  unfolding collect names_of
  columns_lem = rw has refl

  length-plan_lines :
      (rows : List (List (Normal r))) → length (plan_lines r s (c ∷ cols) rows) ≡ length rows + 2
  unfolding plan_lines
  length-plan_lines rows =
      omega (arith, length-map rows (λ row. join (codes " | ") (map (shown_cell r s) row)))

  -- Where the run has columns, the plan of a MySQL statement has two lines of heading and one for each
  -- of the first MAX_ROWS rows.
  pub length-explain_mysql :
      (lines : List Text) × (ms : ℕ) × (explain_mysql r s max_rows (fetched cur) ≡ planned lines ms)
      × (length lines ≡ min max_rows (length cur.rows) + 2)
  unfolding explain_mysql
  length-explain_mysql =
      (_, _, refl, rw columns_lem (length-plan_lines _ ∙ ap (λ n. n + 2) shown-length))

  length-first_cells :
      (rows : List (List (Normal r)))
      → IsOneColumn r rows
      → (lines : List Text) × (first_cells r s rows ≡ some lines) × (length lines ≡ length rows)
  unfolding first_cells
  length-first_cells [] h = ([], refl, refl)
  length-first_cells ([] ∷ rows) ((v, e), h) = absurd (cc)
  length-first_cells ((w ∷ row) ∷ rows) (_, h) =
      let (lines, e, n) = length-first_cells rows h in
      (str_of r w ∷ lines, rw e refl, omega (arith, n))

  -- Where the run has columns and each row that is shown has one cell, the plan of a Redshift statement
  -- has one line for each of the first MAX_ROWS rows.
  pub length-explain_redshift :
      IsOneColumn r (collect r s max_rows cur).rows
      → (lines : List Text) × (ms : ℕ) × (explain_redshift r s max_rows (fetched cur)
          ≡ planned lines ms)
        × (length lines ≡ min max_rows (length cur.rows))
  unfolding explain_redshift
  length-explain_redshift one =
      let (lines, e, n) = length-first_cells (collect r s max_rows cur).rows one in
      (
        lines,
        (collect r s max_rows cur).latency_ms,
        rw (explain_redshift, e) refl,
        n ∙ shown-length,
      )
