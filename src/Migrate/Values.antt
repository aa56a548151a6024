-- ===== src/Migrate/Values.antt =====
-- What Redshift holds behind the migration of a table, by the values that MySQL has.
use mysql_redshift_agent.Prelude.{Option, none, List, [], ◌∷◌, map}
use mysql_redshift_agent.Text.{Text}
use mysql_redshift_agent.Value.{Runtime, Value}
use mysql_redshift_agent.Migrate.{DictRows}
use mysql_redshift_agent.Migrate.Loaded.{null_if_blank}

module _ {r : Runtime} where
  -- The dict that the cursor makes of a row.
  abbrev pub dict_of : List Text → List (Value r) → List (Text × Value r)
  dict_of [] values = []
  dict_of (c ∷ columns) [] = []
  dict_of (c ∷ columns) (v ∷ values) = (c, v) ∷ dict_of columns values

  abbrev pub dict_cursor : List Text → List (List (Value r)) → DictRows r
  dict_cursor columns rows = record { columns = columns; rows = map (dict_of columns) rows }

module _ {r : Runtime} (str : Value r → Text) where
  -- The field of Redshift for a value: NULL for None and for a blank text.
  unfoldable pub loaded_value : Value r → Option Text
  loaded_value Value.null = none
  loaded_value v = null_if_blank (str v)
