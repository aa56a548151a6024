-- ===== src/Proxy/Values.antt =====
-- What the executors of proxy/internal/executor return, and its conversion to a MySQL result in
-- proxy/internal/resultmap/resultmap.go. Times, floats and other values of the drivers are parameters, and so
-- is the construction of a text result of the MySQL library.
use mysql_redshift_agent.Prelude.{ℕ, ◌+◌, Bool, Option, none, some, List, ◌∷◌, map, if◌then◌else◌}
use mysql_redshift_agent.Text.{Text, codes}
use mysql_redshift_agent.Value.{ℤ, pos, negsuc}
use mysql_redshift_agent.Gen.Decimal.{str_nat}

-- The types of the drivers with what the code calls on them
pub record Types : Type 1 where
  pub Time : Type 0
  pub Float32 : Type 0
  pub Float64 : Type 0
  pub Other : Type 0
  -- `x.Format("2006-01-02 15:04:05")`
  pub format_time : Time → Text
  -- `strconv.FormatFloat` with 'f' and -1
  pub format_float32 : Float32 → Text
  pub format_float64 : Float64 → Text
  -- `fmt.Sprintf("%v", x)`
  pub sprint : Other → Text
  -- a text result set of the library
  pub Resultset : Type 0

-- A value that a driver scans into an `any`.
pub data Value (t : Types) : Type 0 where
  nil : Value t
  bytes : Text → Value t
  string : Text → Value t
  time : t.Time → Value t
  int : ℤ → Value t
  uint : ℕ → Value t
  float32 : t.Float32 → Value t
  float64 : t.Float64 → Value t
  bool : Bool → Value t
  other : t.Other → Value t

-- `executor.Result`
pub record Result (t : Types) : Type 0 where
  pub columns : List Text
  pub rows : List (List (Value t))

-- `fmt.Sprintf("%d", x)`
unfoldable pub format_int : ℤ → Text
format_int (pos n) = str_nat n
format_int (negsuc n) = b'-' ∷ str_nat (n + 1)

module _ (t : Types) where
  unfoldable pub any_to_string : Value t → Option Text
  any_to_string nil = none
  any_to_string (bytes x) = some x
  any_to_string (string x) = some x
  any_to_string (time x) = some (t.format_time x)
  any_to_string (int x) = some (format_int x)
  any_to_string (uint x) = some (str_nat x)
  any_to_string (float32 x) = some (t.format_float32 x)
  any_to_string (float64 x) = some (t.format_float64 x)
  any_to_string (bool x) = some (if x then codes "1" else codes "0")
  any_to_string (other x) = some (t.sprint x)

  -- The rows that `ToMySQL` hands to the library.
  unfoldable pub text_rows : List (List (Value t)) → List (List (Option Text))
  unfolding any_to_string
  text_rows rows = map (map any_to_string) rows

-- `BuildSimpleTextResultset`: a result set, or the text of an error
pub data Built (A : Type 0) : Type 0 where
  built : A → Built A
  refused : Text → Built A

-- `gomysql.Result`: one with no result set, or one with it
pub data MysqlResult (t : Types) : Type 0 where
  blank : MysqlResult t
  resultset : t.Resultset → MysqlResult t

abbrev pub Build : Types → Type 0
Build t = List Text → List (List (Option Text)) → Built t.Resultset

-- `ToMySQL`
unfoldable pub to_mysql : (t : Types) → Build t → Option (Result t) → Built (MysqlResult t)
unfolding text_rows
to_mysql t build none = built blank
to_mysql t build (some r) = elim (build r.columns (text_rows t r.rows)) [
  | refused e ↦ refused e
  | built rs ↦ built (resultset rs)
]
