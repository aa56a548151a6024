-- ===== src/Extract.antt =====
-- agent/app.py, from CLEAN_PATTERNS to `extract_sql`: the SQL of a model's reply.
pub mod Keyword
use mysql_redshift_agent.Prelude.{ℕ, Bool, Option, none, some, List, [], ◌∷◌, ◌++◌, if◌then◌else◌}
use mysql_redshift_agent.Text.{
  Text, Unicode, codes, starts_with, strip, rstrip, rstrip_semicolons, upper,
}
use mysql_redshift_agent.Regex.{
  Regex, char, seq, star, boundary, bol, eol, lit, space, opt, word, alternatives, Before, Found,
  search_from, rest_of,
}

abbrev pub fence : Text
fence = codes "```"

-- ```(?:sql)?\s*\n
abbrev opening : Regex
opening = seq (word fence) (seq (opt (word (codes "sql"))) (seq (star space) (char (lit 10))))

unfoldable pub leading_fence : Regex
leading_fence = seq bol opening

unfoldable pub trailing_fence : Regex
trailing_fence = seq (opt (char (lit 10))) (seq (word fence) (seq (star space) eol))

-- `p.sub("", t)` for a pattern that is tied to the start or to the end of the text, and so has one
-- match at most.
unfoldable pub remove_match : Unicode → Regex → Text → Text
remove_match u p t = elim (search_from u p none t rest_of) [
  | none ↦ t
  | some m ↦ m.prefix ++ m.result
]

unfoldable pub strip_code_fence : Unicode → Text → Text
strip_code_fence u text =
    strip (remove_match u trailing_fence (remove_match u leading_fence (strip text)))

abbrev pub other_keywords : List Text
other_keywords =
    codes "SELECT"
    ∷ codes "INSERT"
    ∷ codes "UPDATE"
    ∷ codes "DELETE"
    ∷ codes "CREATE"
    ∷ codes "DROP"
    ∷ codes "ALTER"
    ∷ codes "TRUNCATE"
    ∷ codes "SHOW"
    ∷ codes "EXPLAIN"
    ∷ codes "BEGIN"
    ∷ codes "COMMIT"
    ∷ codes "COPY"
    ∷ codes "UNLOAD"
    ∷ []

abbrev pub keywords : List Text
keywords = codes "WITH" ∷ other_keywords

-- `_SQL_START`
unfoldable pub sql_start : Regex
sql_start = seq boundary (seq (alternatives (codes "WITH") other_keywords) boundary)

-- `(.*?)` in front of the next fence.
unfoldable pub before_fence : Text → Option Text
before_fence [] = none
before_fence (c ∷ s) =
    if starts_with fence (c ∷ s)
    then some []
    else elim (before_fence s) [ none ↦ none | some t ↦ some (c ∷ t) ]

abbrev pub untranslatable : Text
untranslatable = codes "-- UNTRANSLATABLE"

unfoldable pub is_untranslatable : Unicode → Text → Bool
is_untranslatable u t = starts_with untranslatable (upper u t)

-- The text inside a fence, if there is one.
unfoldable pub take_fenced : Unicode → Text → Text
take_fenced u t = elim (search_from u opening none t (λ p s. before_fence s)) [
  | none ↦ t
  | some m ↦ strip m.result
]

-- The text from the first keyword on, if there is one.
unfoldable pub from_keyword : Unicode → Text → Text
from_keyword u t = elim (search_from u sql_start none t rest_of) [ none ↦ t | some m ↦ strip m.at ]

-- `t.rstrip().rstrip(";").strip()`
unfoldable pub clean_end : Text → Text
clean_end t = strip (rstrip_semicolons (rstrip t))

unfoldable pub extract_sql : Unicode → Text → Text
unfolding strip_code_fence is_untranslatable take_fenced from_keyword clean_end
extract_sql u text =
    let t = strip_code_fence u text in
    if is_untranslatable u t then t else clean_end (from_keyword u (take_fenced u t))
