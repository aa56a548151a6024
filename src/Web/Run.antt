-- ===== src/Web/Run.antt =====
-- `_stringify`, `_run_mysql`, `_run_redshift` and the two `_explain` functions of webui/app.py. The
-- servers are parameters: what a cursor gives for a statement, or the exception.
use Prim.Native.Nat.{max}
use mysql_redshift_agent.Prelude.{
  ℕ, zero, suc, ◌+◌, Bool, Option, none, some, List, [], ◌∷◌, map, length, take, drop, ltb,
  if◌then◌else◌,
}
use mysql_redshift_agent.Text.{Text, codes, join}
use mysql_redshift_agent.Driver.{Cursor, Executed, fetched, raised, names_of, available}
use mysql_redshift_agent.Value.{Runtime, Value, Normal, str_of}

-- `str` of the objects for which `_normalize` does something else.
pub record Display (r : Runtime) : Type 0 where
  pub str_of_decimal : r.Decimal → Text
  pub str_of_moment : r.Moment → Text

-- The dict that `_run_mysql` and `_run_redshift` return.
pub record Out (r : Runtime) : Type 0 where
  pub columns : List Text
  pub rows : List (List (Normal r))
  pub row_count : ℕ
  pub latency_ms : ℕ
  pub truncated : Bool

-- The plan of an `_explain` function, or an exception.
pub data Planned : Type 0 where
  planned : List Text → ℕ → Planned
  failed : Text → Text → Planned

-- `"-" * n`
unfoldable pub dashes : ℕ → Text
dashes zero = []
dashes (suc n) = b'-' ∷ dashes n

module _ (r : Runtime) (s : Display r) where
  unfoldable pub stringify : Value r → Normal r
  stringify Value.null = Normal.null
  stringify (Value.bytes b) = Normal.str (r.decode b)
  stringify (Value.int n) = Normal.int n
  stringify (Value.float x) = Normal.float x
  stringify (Value.str t) = Normal.str t
  stringify (Value.bool b) = Normal.bool b
  stringify (Value.decimal d) = Normal.str (s.str_of_decimal d)
  stringify (Value.moment m) = Normal.str (s.str_of_moment m)
  stringify (Value.object o) = Normal.str (r.str_of_object o)

  -- From `fetchmany` to the dict: what is left for `fetchall` is what `fetchmany` did not give.
  unfoldable pub collect : ℕ → Cursor r → Out r
  collect max_rows cur =
      let rows_raw = take (max_rows + 1) (available (names_of cur.description) cur.rows) in
      let more = drop (max_rows + 1) (available (names_of cur.description) cur.rows) in
      let truncated = ltb max_rows (length rows_raw) in
      let kept = take max_rows rows_raw in
      record {
        columns = names_of cur.description;
        rows = map (map stringify) kept;
        row_count = if truncated then length kept + length more else length kept;
        latency_ms = cur.latency_ms;
        truncated = truncated;
      }

  -- `"" if v is None else str(v)`
  unfoldable pub shown_cell : Normal r → Text
  shown_cell Normal.null = []
  shown_cell v = str_of r v

  unfoldable pub plan_lines : List Text → List (List (Normal r)) → List Text
  plan_lines [] rows = []
  plan_lines (c ∷ cols) rows =
      join (codes " | ") (c ∷ cols)
      ∷ join (codes "-+-") (map (λ x. dashes (max 3 (length x))) (c ∷ cols))
      ∷ map (λ row. join (codes " | ") (map shown_cell row)) rows

  unfoldable pub explain_mysql : ℕ → Executed r → Planned
  explain_mysql max_rows (raised kind message) = failed kind message
  explain_mysql max_rows (fetched cur) =
      let out = collect max_rows cur in planned (plan_lines out.columns out.rows) out.latency_ms

  -- `[str(row[0]) for row in rows]`; `none` is an IndexError.
  unfoldable pub first_cells : List (List (Normal r)) → Option (List Text)
  first_cells [] = some []
  first_cells ([] ∷ rows) = none
  first_cells ((v ∷ row) ∷ rows) = elim (first_cells rows) [
    | none ↦ none
    | some ts ↦ some (str_of r v ∷ ts)
  ]

  unfoldable pub explain_redshift : ℕ → Executed r → Planned
  explain_redshift max_rows (raised kind message) = failed kind message
  explain_redshift max_rows (fetched cur) =
      let out = collect max_rows cur in
      elim (first_cells out.rows) [
        | none ↦ failed (codes "IndexError") (codes "list index out of range")
        | some lines ↦ planned lines out.latency_ms
      ]
