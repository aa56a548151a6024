-- ===== src/Tests/Comparing.antt =====
-- Runs of the comparison, and its theorems at two small result sets.
use mathlib.Core.List.{Permᴰ}
use mysql_redshift_agent.Prelude.{
  ℕ, ◌≡◌, ◌≢◌, inl, inr, refl, ap, sym, ◌∙◌, none, some, List, [], ◌∷◌, map, length, arith,
}
use mysql_redshift_agent.Prelude.Sort.{Separates, sorted, insert_sorted}
use mysql_redshift_agent.Text.{
  Text, codes, lower, text_eq, text_le, strip, lstrip, rstrip, rstrip_by, is_space,
}
use mysql_redshift_agent.Text.Laws.{text_eq_iff}
use mysql_redshift_agent.Value.{
  pos, Row, Value, normalize, texts_le, value_eq, normal_eq, as_number, to_float, close, same,
  str_of,
}
use mysql_redshift_agent.Compare.{
  sort_error, accepted, strictly_equal, compare, compare_strict, conclude, scan, first_mismatch,
  record_first, sort_rows, row_key, same_names,
}
use mysql_redshift_agent.Compare.Modes.{skipped, lenient}
use mysql_redshift_agent.Compare.Strict.{Paired, compare-ok-strict}
use mysql_redshift_agent.Compare.Reorder.{normal_row, normal_key, compare_reordered}
use mysql_redshift_agent.Compare.Total.{compare-ne-none}
use mysql_redshift_agent.Tests.Fixtures.{ascii, hundredths}

abbrev row_of : ℕ → Text → Row hundredths
row_of n s = Value.int (pos n) ∷ Value.str s ∷ []

abbrev mysql_rows : List (Row hundredths)
mysql_rows = row_of 2 (codes "US ") ∷ row_of 1 (codes "JP") ∷ []

abbrev redshift_rows : List (Row hundredths)
redshift_rows = row_of 1 (codes "JP") ∷ row_of 2 (codes "US") ∷ []

abbrev mysql_columns : List Text
mysql_columns = codes "Total" ∷ codes "country" ∷ []

abbrev redshift_columns : List Text
redshift_columns = codes "total" ∷ codes "country" ∷ []

abbrev strict : Text
strict = codes "strict"

-- What a run of the comparison computes with.
unfoldable pub program : Unit {0}
unfolding compare compare_strict conclude scan first_mismatch record_first sort_rows row_key
    sort_error same_names sorted insert_sorted texts_le text_le text_eq normalize value_eq normal_eq
    as_number to_float close same str_of lower strip lstrip rstrip rstrip_by is_space
program = tt

strict-ne-skipped : strict ≢ skipped
unfolding program
strict-ne-skipped e = cc ((text_eq_iff strict skipped).1 e)

strict-ne-lenient : strict ≢ lenient
unfolding program
strict-ne-lenient e = cc ((text_eq_iff strict lenient).1 e)

-- The servers return the rows in different orders, one pads a text, and the comparison accepts.
accepts_reordered :
    compare hundredths ascii mysql_rows redshift_rows mysql_columns redshift_columns strict
    ≡ some (accepted hundredths (strictly_equal 2))
unfolding program
accepts_reordered = refl

apart : Separates texts_le (normal_key hundredths) (map (normal_row hundredths) mysql_rows)
unfolding program
apart a b (inl p) (inl q) k = p ∙ sym q
apart a b (inl p) (inr (inl q)) k =
    absurd (cc (p, k, ap (normal_key hundredths) p, ap (normal_key hundredths) q))
apart a b (inr (inl p)) (inl q) k =
    absurd (cc (p, k, ap (normal_key hundredths) p, ap (normal_key hundredths) q))
apart a b (inr (inl p)) (inr (inl q)) k = p ∙ sym q
apart a b (inl p) (inr (inr q)) k = elim q.lower [ ]
apart a b (inr (inl p)) (inr (inr q)) k = elim q.lower [ ]
apart a b (inr (inr p)) q k = elim p.lower [ ]

reordered_normal :
    Permᴰ (map (normal_row hundredths) mysql_rows) (map (normal_row hundredths) redshift_rows)
unfolding program
reordered_normal = Permᴰ.swap refl refl

compare_reordered_example :
    compare hundredths ascii mysql_rows redshift_rows mysql_columns redshift_columns strict
    ≡ some (accepted hundredths (strictly_equal 2))
unfolding program
compare_reordered_example =
    compare_reordered hundredths ascii mysql_rows redshift_rows mysql_columns redshift_columns
      strict strict-ne-skipped strict-ne-lenient refl reordered_normal apart
      ((refl, (refl, tt)), ((refl, (refl, tt)), tt)) refl

compare-ok-strict_example :
    (length mysql_rows ≡ length redshift_rows)
    × (map (lower ascii) mysql_columns ≡ map (lower ascii) redshift_columns)
    × Paired hundredths mysql_rows redshift_rows
compare-ok-strict_example =
    compare-ok-strict hundredths ascii mysql_rows redshift_rows mysql_columns redshift_columns
      (accepted hundredths (strictly_equal 2)) strict strict-ne-skipped strict-ne-lenient
      accepts_reordered refl

compare-ne-none_example :
    compare hundredths ascii mysql_rows redshift_rows mysql_columns redshift_columns strict ≢ none
compare-ne-none_example =
    compare-ne-none hundredths ascii mysql_rows redshift_rows mysql_columns redshift_columns strict
      (omega arith)

-- A row that is longer than the list of column names raises the IndexError at a difference there.
raises :
    compare hundredths ascii
      (row_of 1 (codes "a") ∷ [])
      (row_of 1 (codes "b") ∷ [])
      (codes "n" ∷ [])
      (codes "n" ∷ [])
      strict
    ≡ none
unfolding program
raises = refl
