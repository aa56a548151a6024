-- ===== src/Proxy/Normalize.antt =====
-- `normalize` and `Key` of proxy/internal/cache/cache.go, with the three regular expressions as Go matches
-- them: leftmost first, greedy, and with the ASCII classes \d, \s and \b. The digest is a parameter.
use mysql_redshift_agent.Prelude.{
  ℕ, zero, suc, ◌+◌, Bool, false, ◌&&◌, ◌||◌, not, Option, none, some, [], ◌∷◌, ◌++◌, drop, ltb,
  leb, ◌==◌, if◌then◌else◌,
}
use mathlib.Core.Option
use mysql_redshift_agent.Text.{Text}
use mysql_redshift_agent.Proxy.GoText.{Unicode, to_lower, trim_space, trim_semicolons}

abbrev pub quote : ℕ
quote = 39

unfoldable pub is_digit : ℕ → Bool
is_digit c = leb b'0' c && leb c b'9'

unfoldable pub is_word : ℕ → Bool
unfolding is_digit
is_word c = is_digit c || (leb b'A' c && leb c b'Z') || (leb b'a' c && leb c b'z') || c == b'_'

-- \s
unfoldable pub is_blank : ℕ → Bool
is_blank c = c == 9 || c == 10 || c == 12 || c == 13 || c == 32

-- How many characters at the start a test accepts.
unfoldable pub run_length : (ℕ → Bool) → Text → ℕ
run_length p [] = 0
run_length p (c ∷ s) = let rest = run_length p s in if p c then suc rest else 0

-- The length of a match behind its first character. Whether the character before is a word character is
-- all that a pattern reads to its left.
abbrev pub Pattern : Type 0
Pattern = Bool → Text → Option ℕ

-- At a character with or without a match, with what follows for so many characters to be skipped
unfoldable pub replace_at : (ℕ → Text) → Text → ℕ → Option ℕ → Text
replace_at next repl c none = c ∷ next 0
replace_at next repl c (some n) = repl ++ next n

-- `re.ReplaceAllString(s, repl)`, with the characters of a match that are still to be skipped
unfoldable pub replace_from : Pattern → Text → ℕ → Bool → Text → Text
unfolding is_word replace_at
replace_from m repl k before [] = []
replace_from m repl zero before (c ∷ s) =
    replace_at (λ k. replace_from m repl k (is_word c) s) repl c (m before (c ∷ s))
replace_from m repl (suc k) before (c ∷ s) = replace_from m repl k (is_word c) s

-- (?:[^']|'')*' behind the opening quote: a doubled quote is taken as a pair if the text is closed later,
-- and as the closing quote otherwise.
unfoldable pub string_rest : Text → Option ℕ
string_rest [] = none
string_rest (c ∷ []) = if c == quote then some 1 else none
string_rest (c ∷ d ∷ s) =
    if c == quote
    then (if d == quote
        then elim (string_rest s) [ none ↦ some 1 | some n ↦ some (n + 2) ]
        else some 1)
    else Option.map suc (string_rest (d ∷ s))

-- '(?:[^']|'')*'
unfoldable pub string_literal : Pattern
unfolding string_rest
string_literal before [] = none
string_literal before (c ∷ s) = if c == quote then string_rest s else none

unfoldable pub starts_word : Text → Bool
unfolding is_word
starts_word [] = false
starts_word (c ∷ s) = is_word c

-- \.\d+\b
unfoldable pub fraction : Text → Option ℕ
unfolding run_length starts_word
fraction [] = none
fraction (c ∷ s) =
    let n = run_length is_digit s in
    if c == b'.' && ltb 0 n && not (starts_word (drop n s)) then some (suc n) else none

-- The end of a number: with its fraction, or else at the end of a word
unfoldable pub number_end : ℕ → Text → Option ℕ → Option ℕ
unfolding starts_word
number_end n rest (some k) = some (n + k)
number_end n rest none = if starts_word rest then none else some n

-- \d*(\.\d+)?\b behind a digit
unfoldable pub number_rest : Text → Option ℕ
unfolding fraction number_end
number_rest s = let n = run_length is_digit s in number_end n (drop n s) (fraction (drop n s))

-- \b\d+(\.\d+)?\b
unfoldable pub number : Pattern
unfolding number_rest
number before [] = none
number before (c ∷ s) = if not before && is_digit c then number_rest s else none

-- \s+
unfoldable pub blanks : Pattern
unfolding is_blank run_length
blanks before [] = none
blanks before (c ∷ s) = if is_blank c then some (run_length is_blank s) else none

abbrev pub mark : Text
mark = b'?' ∷ []

unfoldable pub replace_all : Pattern → Text → Text → Text
unfolding replace_from
replace_all m repl s = replace_from m repl 0 false s

-- `normalize`
unfoldable pub normalize : Unicode → Text → Text
unfolding replace_all string_literal number blanks
normalize u sql =
    let s = to_lower u (trim_semicolons (trim_space sql)) in
    replace_all blanks (32 ∷ []) (replace_all number mark (replace_all string_literal mark s))

-- `Key`
unfoldable pub key : (Text → Text) → Unicode → Text → Text
unfolding normalize
key digest u sql = digest (normalize u sql)
