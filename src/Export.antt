-- ===== src/Export.antt =====
-- scripts/xlsx_to_csv.py: the sheet as a file with tabs, for LOAD DATA, and as a CSV file with a header. The
-- rows of the sheet are what openpyxl gives; `str` is Python's on their cells.
pub mod Files
use mysql_redshift_agent.Prelude.{Option, none, some, List, [], ◌∷◌, map}
use mysql_redshift_agent.Text.{Text, codes, join}
use mysql_redshift_agent.Value.{Runtime, Value}
use mysql_redshift_agent.Csv.{excel, tabs, write_rows}

-- `"\\N" if v is None else v`, and `"" if v is None else v`, as the writer shows them
module _ {r : Runtime} (str : Value r → Text) where
  unfoldable pub null_as : Text → Value r → Text
  null_as null_text Value.null = null_text
  null_as null_text v = str v

  abbrev pub tsv_cell : Value r → Text
  tsv_cell = null_as (codes "\\N")

  abbrev pub csv_cell : Value r → Text
  csv_cell = null_as []

  -- The names of the last line that is printed; `none` is the TypeError of `join` on a cell that is no text.
  unfoldable pub names_of_header : List (Value r) → Option (List Text)
  names_of_header [] = some []
  names_of_header (Value.str s ∷ header) = elim (names_of_header header) [
    | none ↦ none
    | some names ↦ some (s ∷ names)
  ]
  names_of_header _ = none

  -- The two files, and the columns that are printed at the end.
  pub record Exported : Type 0 where
    pub tsv : Text
    pub csv : Text
    pub columns : Option Text

  -- `main`; `none` is the IndexError of an empty sheet, which writes nothing.
  unfoldable pub export_sheet : List (List (Value r)) → Option Exported
  export_sheet [] = none
  export_sheet (header ∷ rows) = some (record {
    tsv = write_rows tabs (map (map tsv_cell) rows);
    csv = write_rows excel (map csv_cell header ∷ map (map csv_cell) rows);
    columns = elim (names_of_header header) [
      | none ↦ none
      | some names ↦ some (join (codes ", ") names)
    ];
  })
