-- ===== src/Export/Files.antt =====
-- What the files of the export hold, for a reader that takes \N or an empty field for NULL.
use mysql_redshift_agent.Prelude.{◌≡◌, ◌≢◌, false, Option, none, some, List, map, if◌then◌else◌}
use mysql_redshift_agent.Text.{Text, text_eq}
use mysql_redshift_agent.Value.{Runtime, Value}
use mysql_redshift_agent.Csv.Reader.{CsvTable, has_control}
use mysql_redshift_agent.Export.{tsv_cell}

-- The cells of a table, with a text that stands for NULL.
unfoldable pub cell_of : Text → Text → Option Text
cell_of null s = if text_eq s null then none else some s

abbrev pub cells_of : Text → Option CsvTable → Option (List (List (Option Text)))
cells_of null none = none
cells_of null (some table) = some (map (map (cell_of null)) table)

module _ {r : Runtime} (str : Value r → Text) where
  -- The text of a cell; None has none.
  unfoldable pub text_of : Value r → Option Text
  text_of Value.null = none
  text_of v = some (str v)

  -- The text for NULL is not the text of the cell, unless this is None.
  abbrev pub IsApart : Text → Value r → Type 0
  IsApart null Value.null = Unit
  IsApart null v = str v ≢ null

  -- The text of the cell has no quote, tab or line break, so that the writer does not quote it.
  abbrev pub IsPlainCell : Value r → Type 0
  IsPlainCell v = has_control 9 (tsv_cell str v) ≡ false
