-- ===== src/Regex.antt =====
-- The regular expressions that the program compiles, with the matching of Python's `re` over
-- `str`, where the flag IGNORECASE is set or the pattern has no letter: alternatives in order, greedy
-- repetition, and backtracking, written with a continuation.
pub mod Occurs
pub mod Words
use mathlib.Core.Bool.{xor}
use mysql_redshift_agent.Prelude.{
  ℕ, ◌+◌, Bool, is_some, true, false, ◌&&◌, ◌||◌, not, Option, none, some, List, [], ◌∷◌, leb, ◌==◌,
  if◌then◌else◌,
}
use mysql_redshift_agent.Text.{Text, Unicode, is_space, is_digit, is_word}

-- One character: a literal, `\s`, `\d`, or `.` under DOTALL.
pub data Class : Type 0 where
  lit : ℕ → Class
  space digit any : Class

-- `star` is the greedy repetition of one character, the only one that the patterns use.
pub data Regex : Type 0 where
  empty : Regex
  char : Class → Regex
  seq alt : Regex → Regex → Regex
  star : Class → Regex
  boundary bol eol : Regex

-- `c+`, `r?`, and a word of literals
abbrev pub plus : Class → Regex
plus c = seq (char c) (star c)

abbrev pub opt : Regex → Regex
opt r = alt r empty

abbrev pub word : Text → Regex
word [] = empty
word (c ∷ s) = seq (char (lit c)) (word s)

abbrev pub alternatives : Text → List Text → Regex
alternatives w [] = word w
alternatives w (v ∷ ws) = alt (word w) (alternatives v ws)

-- IGNORECASE on an ASCII literal: beyond ASCII only the dotted and dotless i, the long s and the
-- Kelvin sign compare equal to an ASCII letter.
unfoldable pub fold_case : ℕ → ℕ
fold_case c =
    if leb b'A' c && leb c b'Z'
    then c + 32
    else if c == 304 || c == 305
    then b'i'
    else if c == 383
    then b's'
    else if c == 8490
    then b'k'
    else c

-- The character before the position, if there is one.
abbrev pub Before : Type 0
Before = Option ℕ

module _ (u : Unicode) where
  unfoldable pub accepts : Class → ℕ → Bool
  accepts (lit x) c = fold_case x == fold_case c
  accepts space c = is_space c
  accepts digit c = is_digit u c
  accepts any c = true

  unfoldable pub word_before : Before → Bool
  word_before none = false
  word_before (some c) = is_word u c

  unfoldable pub word_after : Text → Bool
  word_after [] = false
  word_after (c ∷ s) = is_word u c

  -- `\b`
  unfoldable pub at_boundary : Before → Text → Bool
  unfolding word_before word_after
  at_boundary p s = xor (word_before p) (word_after s)

-- `^` and `$` without MULTILINE
unfoldable pub at_start : Before → Bool
at_start none = true
at_start (some c) = false

unfoldable pub at_end : Text → Bool
at_end [] = true
at_end (c ∷ []) = c == 10
at_end (c ∷ d ∷ s) = false

unfoldable pub or_else {ℓ} : {R : Type ℓ} → Option R → Option R → Option R
or_else (some r) o = some r
or_else none o = o

module _ {ℓ} {R : Type ℓ} (u : Unicode) where
  pub run_star : Class → Before → Text → (Before → Text → Option R) → Option R
  run_star c p [] k = k p []
  run_star c p (x ∷ s) k =
      let more = run_star c (some x) s k in
      if accepts u c x then or_else more (k p (x ∷ s)) else k p (x ∷ s)

  -- `r` at one position, then `k` on what is left.
  unfoldable pub run : Regex → Before → Text → (Before → Text → Option R) → Option R
  unfolding run_star
  run empty p s k = k p s
  run (char c) p [] k = none
  run (char c) p (x ∷ s) k = if accepts u c x then k (some x) s else none
  run (seq r q) p s k = run r p s (λ p' s'. run q p' s' k)
  run (alt r q) p s k = let other = run q p s k in or_else (run r p s k) other
  run (star c) p s k = run_star c p s k
  run boundary p s k = if at_boundary u p s then k p s else none
  run bol p s k = if at_start p then k p s else none
  run eol p s k = if at_end s then k p s else none

-- What `search` finds: the text before the match, from the match on, and the continuation's result.
pub record Found {ℓ} (R : Type ℓ) : Type ℓ where
  pub prefix : Text
  pub at : Text
  pub result : R

abbrev pub push {ℓ} : {R : Type ℓ} → ℕ → Found R → Found R
push c f = record { prefix = c ∷ f.prefix; at = f.at; result = f.result }

module _ {ℓ} {R : Type ℓ} (u : Unicode) where
  -- The first position at which `r` and then `k` succeed.
  unfoldable pub search_from : Regex → Before → Text → (Before → Text → Option R) → Option (Found R)
  search_from r p [] k = elim (run u r p [] k) [
    | some v ↦ some (record { prefix = []; at = []; result = v })
    | none ↦ none
  ]
  search_from r p (c ∷ s) k = elim (run u r p (c ∷ s) k) [
    | some v ↦ some (record { prefix = []; at = c ∷ s; result = v })
    | none ↦ elim (search_from r (some c) s k) [ some f ↦ some (push c f) | none ↦ none ]
  ]

-- The end of a match: what is left behind it.
abbrev pub rest_of : Before → Text → Option Text
rest_of p s = some s

-- `re.search(r, s) is not None`
unfoldable pub found : Unicode → Regex → Text → Bool
found u r s = is_some (search_from u r none s rest_of)

-- `re.match(r, s) is not None`
unfoldable pub matches_here : Unicode → Regex → Text → Bool
matches_here u r s = is_some (run u r none s rest_of)
