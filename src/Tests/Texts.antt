-- ===== src/Tests/Texts.antt =====
-- Runs of the keyword rules and of the extraction, and their theorems at concrete statements.
use mathlib.Core.Bool.{xor}
use mysql_redshift_agent.Prelude.{◌≡◌, ◌↔◌, refl, none, some, [], ◌∷◌, Elem, inl}
use mysql_redshift_agent.Prelude.Sort.{sorted, insert_sorted}
use mysql_redshift_agent.Text.{
  Text, codes, text_eq, is_space, is_digit, is_word, strip, lstrip, rstrip, rstrip_by,
  rstrip_semicolons, starts_with, upper, join, text_le,
}
use mysql_redshift_agent.Regex.{
  Regex, run, search_from, found, accepts, fold_case, at_boundary, at_start, at_end, or_else,
  matches_here,
}
use mysql_redshift_agent.Regex.Occurs.{Occurs, found_iff}
use mysql_redshift_agent.Rules.{
  keyword_rules, contains, match_references, list_all_rules, first_line, up_to_boundary,
  is_line_boundary, ends_in_md,
}
use mysql_redshift_agent.Rules.Matching.{Elem-match_references_iff}
use mysql_redshift_agent.Extract.{
  sql_start, leading_fence, trailing_fence, remove_match, strip_code_fence, is_untranslatable,
  take_fenced, extract_sql, before_fence,
}
use mysql_redshift_agent.Extract.Keyword.{BeginsWithKeyword, extract_sql-BeginsWithKeyword}
use mysql_redshift_agent.Tests.Fixtures.{ascii, mysql_count}

unfoldable matching : Unit {0}
unfolding xor run search_from found matches_here accepts fold_case at_boundary at_start at_end
    or_else is_space is_digit is_word keyword_rules contains match_references text_eq
matching = tt

unfoldable pub extracting : Unit {0}
unfolding matching sql_start leading_fence trailing_fence remove_match extract_sql before_fence
    strip lstrip rstrip rstrip_by rstrip_semicolons starts_with upper
extracting = tt

abbrev paged : Text
paged = codes "select `a` from dw.t LIMIT 2 , 3"

paged_rules :
    match_references ascii paged
    ≡ codes "schema_prefix.md" ∷ codes "backticks.md" ∷ codes "limit_offset.md" ∷ []
unfolding matching
paged_rules = refl

calls_rules :
    match_references ascii (codes "SELECT ifnull (a, 0), DATE_SUB(d, 1), xIFNULL(b) FROM t")
    ≡ codes "ifnull.md" ∷ codes "date_arith.md" ∷ []
unfolding matching
calls_rules = refl

Elem-match_references_iff_example :
    Elem (codes "backticks.md") (match_references ascii paged)
    ↔ ((p : Regex) × Elem (p, codes "backticks.md") keyword_rules × Occurs ascii p none paged)
Elem-match_references_iff_example = Elem-match_references_iff ascii paged (codes "backticks.md")

prefix_named : Elem (codes "schema_prefix.md") (match_references ascii mysql_count)
unfolding matching
prefix_named = inl refl

fenced : extract_sql ascii (codes "```sql\nSELECT 1;\n```") ≡ codes "SELECT 1"
unfolding extracting
fenced = refl

prose : extract_sql ascii (codes "Here is:\n```sql\nselect 1 ;\n```\nDone.") ≡ codes "select 1"
unfolding extracting
prose = refl

marker :
    extract_sql ascii (codes " -- Untranslatable: upsert;") ≡ codes "-- Untranslatable: upsert;"
unfolding extracting
marker = refl

-- Only one run of semicolons is taken off the end.
two_runs : extract_sql ascii (codes "SELECT 1; ;") ≡ codes "SELECT 1;"
unfolding extracting
two_runs = refl

abbrev reply : Text
reply = codes "Sure: SELECT 1 ;"

reply_keyword : Occurs ascii sql_start none (take_fenced ascii (strip_code_fence ascii reply))
unfolding extracting strip_code_fence take_fenced
reply_keyword = (found_iff ascii sql_start _).0 refl

extract_sql-BeginsWithKeyword_example : BeginsWithKeyword (extract_sql ascii reply)
unfolding extracting is_untranslatable strip_code_fence
extract_sql-BeginsWithKeyword_example = extract_sql-BeginsWithKeyword ascii reply refl reply_keyword

listing :
    list_all_rules
      ((codes "b.md", codes "# B\nx") ∷ (codes "a.md", codes "# A") ∷ (codes "c.txt", []) ∷ [])
    ≡ some (codes "- a.md: # A\n- b.md: # B")
unfolding list_all_rules first_line up_to_boundary is_line_boundary ends_in_md join text_eq sorted
    insert_sorted text_le
listing = refl

-- A document with no text raises the IndexError.
empty_document : list_all_rules ((codes "a.md", []) ∷ []) ≡ none
unfolding list_all_rules first_line up_to_boundary is_line_boundary ends_in_md join text_eq sorted
    insert_sorted text_le
empty_document = refl
