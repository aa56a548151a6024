-- ===== src/Schema.antt =====
-- agent/tools/get_table_schema.py: the columns of a table, behind an `lru_cache`. What Redshift answers is
-- a parameter.
pub mod Stale
use mysql_redshift_agent.Prelude.{
  ℕ, zero, suc, Bool, Option, none, some, List, [], ◌∷◌, ◌++◌, map, take, filter_by, not, ◌==◌,
  if◌then◌else◌,
}
use mysql_redshift_agent.Text.{Text, Unicode, codes, text_eq, lower, join}

-- A row of information_schema.columns.
pub record Column : Type 0 where
  pub column_name : Text
  pub data_type : Text
  pub character_maximum_length : Option ℕ
  pub is_nullable : Text

-- The rows of the query, or the text of the exception.
pub data Answered : Type 0 where
  rows : List Column → Answered
  raised : Text → Answered

-- RS_HOST, the server over the name of a table, and `str` of a number.
pub record Redshift : Type 0 where
  pub host : Text
  pub columns_of : Text → Answered
  pub str_of_nat : ℕ → Text

-- `f"({maxlen})" if maxlen else ""`
unfoldable pub length_text : Redshift → Option ℕ → Text
length_text db none = []
length_text db (some zero) = []
length_text db (some (suc n)) = codes "(" ++ db.str_of_nat (suc n) ++ codes ")"

unfoldable pub column_line : Redshift → Column → Text
column_line db col =
    col.column_name
    ++ codes " "
    ++ col.data_type
    ++ length_text db col.character_maximum_length
    ++ (if text_eq col.is_nullable (codes "YES") then [] else codes " NOT NULL")

unfoldable pub schema_text : Redshift → Text → Answered → Text
schema_text db table (raised e) =
    codes "(failed to fetch schema for " ++ table ++ codes ": " ++ e ++ codes ")"
schema_text db table (rows []) = codes "(table " ++ table ++ codes " not found in Redshift)"
schema_text db table (rows (col ∷ cols)) =
    codes "TABLE "
    ++ table
    ++ codes " ("
    ++ 10
      ∷ (codes "  "
          ++ join (codes "," ++ 10 ∷ codes "  ") (map (column_line db) (col ∷ cols))
          ++ 10 ∷ codes ")")

-- `_fetch_schema` without its decorator
unfoldable pub fetch_schema : Unicode → Redshift → Text → Text
fetch_schema u db table = elim db.host [
  | [] ↦ codes "(redshift not configured; skip schema)"
  | c ∷ cs ↦ schema_text db table (db.columns_of (lower u table))
]

-- The cache of `lru_cache`: arguments and results, the latest call first.
abbrev pub Cache : Type 0
Cache = List (Text × Text)

abbrev pub maxsize : ℕ
maxsize = 128

unfoldable pub cached_value : Text → Cache → Option Text
cached_value k [] = none
cached_value k ((k', v) ∷ cache) = if text_eq k' k then some v else cached_value k cache

unfoldable pub without : Text → Cache → Cache
without k = filter_by (λ e. not (text_eq e.0 k))

-- A call of the decorated function: a hit moves to the front, a miss is computed and the oldest call is
-- dropped if the cache is full.
unfoldable pub cached_call : (Text → Text) → Text → Cache → Text × Cache
cached_call f k cache = elim (cached_value k cache) [
  | some v ↦ (v, (k, v) ∷ without k cache)
  | none ↦ (f k, take maxsize ((k, f k) ∷ cache))
]

-- `table_name.split(".", 1)[1]`, if there is a dot
unfoldable pub after_dot : Text → Option Text
after_dot [] = none
after_dot (c ∷ s) = if c == b'.' then some s else after_dot s

unfoldable pub table_of : Text → Text
table_of name = elim (after_dot name) [ none ↦ name | some t ↦ t ]

unfoldable pub get_table_schema : Unicode → Redshift → Text → Cache → Text × Cache
get_table_schema u db table_name cache = cached_call (fetch_schema u db) (table_of table_name) cache
