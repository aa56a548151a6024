-- ===== src/Rules.antt =====
-- agent/tools/lookup_dialect_rule.py: the keyword table, the matching of a statement against it, and
-- the tools that read the rule documents. The directory of documents is a list of names and contents.
pub mod Matching
pub mod Documents
use mysql_redshift_agent.Prelude.{
  ℕ, Bool, true, false, ◌&&◌, ◌||◌, not, Option, none, some, List, [], ◌∷◌, ◌++◌, map, leb, ltb,
  ◌==◌, filter_by, if◌then◌else◌,
}
use mysql_redshift_agent.Prelude.Sort.{sorted}
use mysql_redshift_agent.Text.{Text, Unicode, codes, text_eq, text_le, join}
use mysql_redshift_agent.Regex.{
  Regex, char, seq, boundary, star, lit, space, digit, plus, word, alternatives, found,
}

-- (pattern, file name)
abbrev pub Rule : Type 0
Rule = Regex × Text

-- `\bNAME\s*\(`
abbrev pub call_of : Regex → Regex
call_of name = seq boundary (seq name (seq (star space) (char (lit b'('))))

unfoldable pub keyword_rules : List Rule
keyword_rules =
    (seq boundary (word (codes "dw.")), codes "schema_prefix.md")
    ∷ (char (lit b'`'), codes "backticks.md")
    ∷ (
      seq boundary (
          seq (word (codes "limit")) (
            seq (plus space) (
              seq (plus digit)
                (seq (star space) (seq (char (lit b',')) (seq (star space) (plus digit))))))),
      codes "limit_offset.md",
    )
    ∷ (call_of (word (codes "IFNULL")), codes "ifnull.md")
    ∷ (call_of (word (codes "GROUP_CONCAT")), codes "group_concat.md")
    ∷ (call_of (word (codes "DATE_FORMAT")), codes "date_format.md")
    ∷ (
      call_of (
          alternatives (codes "DATE_ADD")
            (codes "DATE_SUB" ∷ codes "ADDDATE" ∷ codes "SUBDATE" ∷ [])),
      codes "date_arith.md",
    )
    ∷ (
      seq boundary (
          seq (word (codes "ON")) (
            seq (plus space)
              (seq (word (codes "DUPLICATE")) (seq (plus space) (word (codes "KEY")))))),
      codes "on_duplicate_key.md",
    )
    ∷ (
      seq boundary (
          seq (alternatives (codes "TINYINT") (codes "MEDIUMTEXT" ∷ codes "DATETIME" ∷ []))
            boundary),
      codes "types.md",
    )
    ∷ (call_of (word (codes "STR_TO_DATE")), codes "str_to_date.md")
    ∷ (
      call_of (alternatives (codes "UNIX_TIMESTAMP") (codes "FROM_UNIXTIME" ∷ [])),
      codes "unix_timestamp.md",
    )
    ∷ (call_of (word (codes "CONCAT_WS")), codes "concat_ws.md")
    ∷ []

-- `fname in hit`
unfoldable pub contains : Text → List Text → Bool
contains t [] = false
contains t (x ∷ xs) = text_eq t x || contains t xs

-- The loop of `match_references`, over the rules that are left.
unfoldable pub match_rules : Unicode → List Rule → Text → List Text → List Text
match_rules u [] sql hit = hit
match_rules u ((pattern_, fname) ∷ rules) sql hit =
    match_rules u rules sql
      (if found u pattern_ sql && not (contains fname hit) then hit ++ fname ∷ [] else hit)

unfoldable pub match_references : Unicode → Text → List Text
unfolding match_rules
match_references u sql = match_rules u keyword_rules sql []

-- REFS_DIR: the documents by name.
abbrev pub Directory : Type 0
Directory = List (Text × Text)

unfoldable pub read_file : Text → Directory → Option Text
read_file f [] = none
read_file f ((n, content) ∷ dir) = if text_eq f n then some content else read_file f dir

unfoldable pub load_reference : Directory → Text → Text
load_reference dir fname = elim (read_file fname dir) [
  | none ↦ codes "(reference not found: " ++ fname ++ codes ")"
  | some content ↦ content
]

-- "# Rule: {fn}\n\n{load_reference(fn)}"
unfoldable pub section_of : Directory → Text → Text
section_of dir fname = codes "# Rule: " ++ fname ++ (10 ∷ 10 ∷ []) ++ load_reference dir fname

abbrev pub no_rules_matched : Text
no_rules_matched = codes "no dialect rules matched; translate by general MySQL→Redshift knowledge."

abbrev pub separator : Text
separator = 10 ∷ 10 ∷ (codes "---" ++ 10 ∷ 10 ∷ [])

-- The two branches of `lookup_dialect_rule` behind its test.
unfoldable pub lookup_sections : Directory → List Text → Text
lookup_sections dir [] = no_rules_matched
lookup_sections dir (h ∷ hits) = join separator (map (section_of dir) (h ∷ hits))

unfoldable pub lookup_dialect_rule : Unicode → Directory → Text → Text
unfolding lookup_sections
lookup_dialect_rule u dir sql = lookup_sections dir (match_references u sql)

-- `.splitlines()[0]`: the text before the first line boundary, and no line at all in an empty text.
unfoldable pub is_line_boundary : ℕ → Bool
is_line_boundary c =
    leb 10 c && leb c 13 || leb 28 c && leb c 30 || c == 133 || c == 8232 || c == 8233

unfoldable pub up_to_boundary : Text → Text
up_to_boundary [] = []
up_to_boundary (c ∷ s) = if is_line_boundary c then [] else c ∷ up_to_boundary s

unfoldable pub first_line : Text → Option Text
first_line [] = none
first_line (c ∷ s) = some (up_to_boundary (c ∷ s))

unfoldable pub ends_in_md : Text → Bool
ends_in_md [] = false
ends_in_md (c ∷ s) = text_eq (c ∷ s) (codes ".md") || ends_in_md s

-- The loop of `list_all_rules`; `none` is the IndexError of `[0]` on a document with no line.
unfoldable pub rule_lines : Directory → Option (List Text)
rule_lines [] = some []
rule_lines ((name, content) ∷ dir) = elim (first_line content) [
  | none ↦ none
  | some line ↦ elim (rule_lines dir) [
    | none ↦ none
    | some out ↦ some ((codes "- " ++ name ++ codes ": " ++ line) ∷ out)
  ]
]

unfoldable pub list_all_rules : Directory → Option Text
unfolding rule_lines
list_all_rules dir =
    elim (rule_lines (sorted text_le (λ f. f.0) (filter_by (λ f. ends_in_md f.0) dir))) [
      | none ↦ none
      | some out ↦ some (join (10 ∷ []) out)
    ]
