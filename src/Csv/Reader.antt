-- ===== src/Csv/Reader.antt =====
-- The format that a reader of such a file expects, on its own: rows end at a line feed, a field that
-- begins with a quote ends at the quote that is not doubled, and outside of quotes a carriage return
-- counts for nothing. A blank line is a row with no fields.
use mysql_redshift_agent.Prelude.{
  ℕ, Bool, ◌||◌, true, false, Option, none, some, List, [], ◌∷◌, ◌++◌, ◌==◌, if◌then◌else◌,
}
use mysql_redshift_agent.Text.{Text}
use mysql_redshift_agent.Csv.{quote}

-- A character that means something to the reader outside of quotes.
unfoldable pub is_control : ℕ → ℕ → Bool
is_control delimiter c = c == delimiter || c == quote || c == 10 || c == 13

unfoldable pub has_control : ℕ → Text → Bool
unfolding is_control
has_control delimiter [] = false
has_control delimiter (c ∷ s) = is_control delimiter c || has_control delimiter s

pub data Kind : Type 0 where
  quoting separating returning ending ordinary : Kind

unfoldable pub kind_of : ℕ → ℕ → Kind
kind_of delimiter c =
    if c == quote
    then quoting
    else if c == delimiter
    then separating
    else if c == 13
    then returning
    else if c == 10
    then ending
    else ordinary

-- At the start of a field, in a field without quotes, between quotes, or behind a quote between quotes.
pub data Mode : Type 0 where
  fresh plain quoted behind_quote : Mode

-- A blank line at the start of a field is the end of an empty row.
unfoldable pub finish_row : Mode → List Text → Text → List Text
finish_row fresh [] field = []
finish_row _ row field = row ++ field ∷ []

abbrev pub CsvTable : Type 0
CsvTable = List (List Text)

abbrev pub with_row : List Text → Option CsvTable → Option CsvTable
with_row row none = none
with_row row (some rows) = some (row ∷ rows)

-- What is read of a text with no character left.
unfoldable pub read_end : Mode → List Text → Option CsvTable
read_end fresh [] = some []
read_end _ _ = none

-- `row` and `field` are what is read of the row and of the field so far.
unfoldable pub read : ℕ → Mode → List Text → Text → Text → Option CsvTable
unfolding finish_row read_end
read d mode row field [] = read_end mode row
read d quoted row field (c ∷ s) = elim (c == quote) [
  | true ↦ read d behind_quote row field s
  | false ↦ read d quoted row (field ++ c ∷ []) s
]
read d behind_quote row field (c ∷ s) = elim (kind_of d c) [
  | quoting ↦ read d quoted row (field ++ c ∷ []) s
  | separating ↦ read d fresh (row ++ field ∷ []) [] s
  | returning ↦ read d behind_quote row field s
  | ending ↦ with_row (finish_row behind_quote row field) (read d fresh [] [] s)
  | ordinary ↦ none
]
read d fresh row field (c ∷ s) = elim (kind_of d c) [
  | quoting ↦ read d quoted row [] s
  | separating ↦ read d fresh (row ++ [] ∷ []) [] s
  | returning ↦ read d fresh row [] s
  | ending ↦ with_row (finish_row fresh row []) (read d fresh [] [] s)
  | ordinary ↦ read d plain row (c ∷ []) s
]
read d plain row field (c ∷ s) = elim (kind_of d c) [
  | quoting ↦ none
  | separating ↦ read d fresh (row ++ field ∷ []) [] s
  | returning ↦ read d plain row field s
  | ending ↦ with_row (finish_row plain row field) (read d fresh [] [] s)
  | ordinary ↦ read d plain row (field ++ c ∷ []) s
]

unfoldable pub read_csv : ℕ → Text → Option CsvTable
unfolding read
read_csv d s = read d fresh [] [] s
