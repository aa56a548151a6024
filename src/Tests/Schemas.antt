-- ===== src/Tests/Schemas.antt =====
-- Runs of the schema tool, and the theorems on its cache at concrete calls.
use mysql_redshift_agent.Prelude.{◌+◌, ◌≡◌, refl, none, some, [], ◌∷◌}
use mysql_redshift_agent.Text.{codes, lower, text_eq, join}
use mysql_redshift_agent.Schema.{
  rows, raised, Redshift, length_text, column_line, schema_text, fetch_schema, cached_value,
  without, cached_call, after_dot, table_of, get_table_schema,
}
use mysql_redshift_agent.Schema.Stale.{get_table_schema-stale}
use mysql_redshift_agent.Csv.{has_char}
use mysql_redshift_agent.Tests.Fixtures.{ascii}

fetching : Unit {0}
unfolding lower text_eq join length_text column_line schema_text fetch_schema cached_value without
    cached_call after_dot table_of get_table_schema has_char
fetching = tt

abbrev orders : Redshift
orders = record {
  host = codes "rs";
  columns_of = λ table. rows (
      record {
        column_name = codes "uid";
        data_type = codes "integer";
        character_maximum_length = none;
        is_nullable = codes "NO";
      }
      ∷ record {
        column_name = codes "app";
        data_type = codes "varchar";
        character_maximum_length = some 8;
        is_nullable = codes "YES";
      }
      ∷ []);
  str_of_nat = λ n. (48 + n) ∷ [];
}

abbrev down : Redshift
down = record orders { columns_of = λ table. raised (codes "timeout") }

describes :
    (get_table_schema ascii orders (codes "dw.T") []).0
    ≡ codes "TABLE T (\n  uid integer NOT NULL,\n  app varchar(8)\n)"
unfolding fetching
describes = refl

-- A failure is answered again, under another schema, when Redshift is back.
get_table_schema-stale_example :
    (get_table_schema ascii orders
      (codes "public.t")
      (get_table_schema ascii down (codes "dw.t") []).1).0
    ≡ codes "(failed to fetch schema for t: timeout)"
unfolding fetching
get_table_schema-stale_example =
    get_table_schema-stale ascii down orders (codes "dw") (codes "public") (codes "t")
      (codes "timeout") [] refl refl refl (λ e. cc) refl
