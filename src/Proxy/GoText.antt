-- ===== src/Proxy/GoText.antt =====
-- What the proxy uses of Go's `strings` package, on the code points of a string that is valid UTF-8.
use mysql_redshift_agent.Prelude.{
  ℕ, ◌+◌, Bool, true, false, ◌&&◌, ◌||◌, List, [], ◌∷◌, map, ltb, leb, ◌==◌, if◌then◌else◌,
}
use mysql_redshift_agent.Text.{Text, rstrip_by}

-- `unicode.ToLower` from 128 on; such a character stays such a character.
pub record Unicode : Type 0 where
  pub to_lower : ℕ → ℕ

-- `unicode.IsSpace`
unfoldable pub is_space : ℕ → Bool
is_space c =
    (leb 9 c && leb c 13)
    || c == 32
    || c == 133
    || c == 160
    || c == 5760
    || (leb 8192 c && leb c 8202)
    || c == 8232
    || c == 8233
    || c == 8239
    || c == 8287
    || c == 12288

unfoldable pub trim_left : Text → Text
trim_left [] = []
trim_left (c ∷ s) = if is_space c then trim_left s else c ∷ s

-- `strings.TrimSpace(s)`
unfoldable pub trim_space : Text → Text
unfolding trim_left
trim_space s = rstrip_by is_space (trim_left s)

-- `strings.TrimRight(s, ";")`
unfoldable pub trim_semicolons : Text → Text
trim_semicolons s = rstrip_by (λ c. c == b';') s

unfoldable pub lower_char : Unicode → ℕ → ℕ
lower_char u c =
    if ltb c 128 then (if leb b'A' c && leb c b'Z' then c + 32 else c) else u.to_lower c

-- `strings.ToLower(s)`
unfoldable pub to_lower : Unicode → Text → Text
unfolding lower_char
to_lower u s = map (lower_char u) s

-- The bytes of a character in UTF-8
unfoldable pub char_bytes : ℕ → ℕ
char_bytes c = if ltb c 128 then 1 else if ltb c 2048 then 2 else if ltb c 65536 then 3 else 4

-- `len(s)`
unfoldable pub byte_length : Text → ℕ
unfolding char_bytes
byte_length [] = 0
byte_length (c ∷ s) = char_bytes c + byte_length s

put_first : ℕ → List Text → List Text
put_first c [] = (c ∷ []) ∷ []
put_first c (t ∷ ts) = (c ∷ t) ∷ ts

-- `strings.Split(s, ",")`
unfoldable pub split_commas : Text → List Text
unfolding put_first
split_commas [] = [] ∷ []
split_commas (c ∷ s) = if c == b',' then [] ∷ split_commas s else put_first c (split_commas s)

-- `s == ""`
unfoldable pub is_empty : Text → Bool
is_empty [] = true
is_empty (c ∷ s) = false
