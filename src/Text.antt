-- ===== src/Text.antt =====
-- Python's `str` as the list of its code points, and the methods of `str` that the program calls.
-- What the language takes from the Unicode character database beyond ASCII is a parameter.
pub mod Laws
pub mod Strip
use Prim.Native.Char.{code}
use mysql_redshift_agent.Prelude.{
  ℕ, ◌+◌, ◌-◌, String, Bool, true, false, ◌&&◌, ◌||◌, Option, none, some, List, [], ◌∷◌, ◌++◌, map,
  ltb, leb, ◌==◌, if◌then◌else◌,
}
use mathlib.Core.List.{reverse}

abbrev pub Text : Type 0
Text = List ℕ

-- A literal of the source.
abbrev pub codes : String → Text
codes String.[] = []
codes (String.◌∷◌ c s) = code c ∷ codes s

-- The properties of the code points from 128 on. Case mapping reads the text around a character
-- (the final sigma), which stands before it and behind it.
pub record Unicode : Type 0 where
  pub is_alnum : ℕ → Bool
  pub is_decimal : ℕ → Bool
  pub lower_of : Text → ℕ → Text → Text
  pub upper_of : ℕ → Text

abbrev between : ℕ → ℕ → ℕ → Bool
between lo hi c = leb lo c && leb c hi

-- `str.isspace` of one character
unfoldable pub is_space : ℕ → Bool
is_space c =
    between 9 13 c
    || between 28 32 c
    || c == 133
    || c == 160
    || c == 5760
    || between 8192 8202 c
    || c == 8232
    || c == 8233
    || c == 8239
    || c == 8287
    || c == 12288

unfoldable pub lstrip : Text → Text
lstrip [] = []
lstrip (c ∷ s) = if is_space c then lstrip s else c ∷ s

-- Drops the trailing characters that a test accepts.
unfoldable pub rstrip_by : (ℕ → Bool) → Text → Text
rstrip_by p [] = []
rstrip_by p (c ∷ s) = elim (rstrip_by p s) [ [] ↦ if p c then [] else c ∷ [] | d ∷ t ↦ c ∷ d ∷ t ]

-- `s.rstrip()`, `s.rstrip(";")` and `s.strip()`
unfoldable pub rstrip : Text → Text
rstrip = rstrip_by is_space

unfoldable pub rstrip_semicolons : Text → Text
rstrip_semicolons = rstrip_by (λ c. c == b';')

unfoldable pub strip : Text → Text
strip s = rstrip (lstrip s)

unfoldable pub starts_with : Text → Text → Bool
starts_with [] s = true
starts_with (p ∷ ps) [] = false
starts_with (p ∷ ps) (c ∷ s) = p == c && starts_with ps s

unfoldable pub text_eq : Text → Text → Bool
text_eq [] [] = true
text_eq (a ∷ s) (b ∷ t) = a == b && text_eq s t
text_eq _ _ = false

-- Code points in order, as `<` on `str` and on the paths of one directory.
unfoldable pub text_le : Text → Text → Bool
text_le [] t = true
text_le (a ∷ s) [] = false
text_le (a ∷ s) (b ∷ t) = if a == b then text_le s t else ltb a b

module _ (u : Unicode) where
  unfoldable pub is_digit : ℕ → Bool
  is_digit c = if ltb c 128 then between b'0' b'9' c else u.is_decimal c

  -- `\w`
  unfoldable pub is_word : ℕ → Bool
  is_word c =
      if ltb c 128
      then between b'0' b'9' c || between b'A' b'Z' c || between b'a' b'z' c || c == b'_'
      else u.is_alnum c

  unfoldable pub upper : Text → Text
  upper [] = []
  upper (c ∷ s) =
      (if ltb c 128 then (if between b'a' b'z' c then c - 32 else c) ∷ [] else u.upper_of c)
      ++ upper s

  lower_from : Text → Text → Text
  lower_from before [] = []
  lower_from before (c ∷ s) =
      (if ltb c 128
        then (if between b'A' b'Z' c then c + 32 else c) ∷ []
        else u.lower_of before c s)
      ++ lower_from (before ++ c ∷ []) s

  unfoldable pub lower : Text → Text
  unfolding lower_from
  lower s = lower_from [] s

-- `sep.join(parts)`
unfoldable pub join : Text → List Text → Text
join sep [] = []
join sep (t ∷ []) = t
join sep (t ∷ t' ∷ ts) = t ++ sep ++ join sep (t' ∷ ts)

-- `sub in s`
unfoldable pub has_infix : Text → Text → Bool
has_infix sub [] = starts_with sub []
has_infix sub (c ∷ s) = starts_with sub (c ∷ s) || has_infix sub s
