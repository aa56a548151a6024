-- ===== src/Csv.antt =====
-- The files that the scripts write with the `csv` module, with its quoting QUOTE_MINIMAL: a field is
-- quoted if it has the delimiter, a quote or a character of the line terminator, as in Python 3.11, or
-- if it is the empty only field of its row. Later versions also quote the line breaks that are not in the
-- line terminator.
pub mod Reader
pub mod Fields
pub mod RoundTrip
use mysql_redshift_agent.Prelude.{
  ℕ, Bool, true, false, ◌||◌, List, [], ◌∷◌, ◌++◌, map, ◌==◌, if◌then◌else◌,
}
use mysql_redshift_agent.Text.{Text, join}

pub record Dialect : Type 0 where
  pub delimiter : ℕ
  pub line_end : Text

-- `csv.writer(f)`, and `csv.writer(f, delimiter="\t", lineterminator="\n")`
abbrev pub excel : Dialect
excel = record { delimiter = b','; line_end = 13 ∷ 10 ∷ [] }

abbrev pub tabs : Dialect
tabs = record { delimiter = 9; line_end = 10 ∷ [] }

abbrev pub quote : ℕ
quote = b'"'

unfoldable pub has_char : ℕ → Text → Bool
has_char c [] = false
has_char c (x ∷ s) = c == x || has_char c s

unfoldable pub is_special : Dialect → ℕ → Bool
unfolding has_char
is_special d c = c == d.delimiter || c == quote || has_char c d.line_end

unfoldable pub needs_quotes : Dialect → Text → Bool
unfolding is_special
needs_quotes d [] = false
needs_quotes d (c ∷ s) = is_special d c || needs_quotes d s

-- A quote is doubled.
unfoldable pub doubled : Text → Text
doubled [] = []
doubled (c ∷ s) = if c == quote then quote ∷ quote ∷ doubled s else c ∷ doubled s

unfoldable pub in_quotes : Text → Text
unfolding doubled
in_quotes s = quote ∷ doubled s ++ quote ∷ []

unfoldable pub written : Dialect → Text → Text
unfolding needs_quotes in_quotes
written d s = if needs_quotes d s then in_quotes s else s

unfoldable pub write_fields : Dialect → List Text → Text
unfolding written
write_fields d [] = []
write_fields d ([] ∷ []) = in_quotes []
write_fields d ((c ∷ s) ∷ []) = written d (c ∷ s)
write_fields d (f ∷ g ∷ fields) = join (d.delimiter ∷ []) (map (written d) (f ∷ g ∷ fields))

-- `writerow`
unfoldable pub write_row : Dialect → List Text → Text
unfolding write_fields
write_row d fields = write_fields d fields ++ d.line_end

-- The loop of `writerow` calls.
unfoldable pub write_rows : Dialect → List (List Text) → Text
unfolding write_row
write_rows d [] = []
write_rows d (row ∷ rows) = write_row d row ++ write_rows d rows
