-- ===== src/Csv/Fields.antt =====
-- How the reader takes one written field, quoted or not, and what follows it.
use mathlib.Core.List.{append_assoc, append-nil}
use mysql_redshift_agent.Prelude.{
  ℕ, ◌≡◌, ◌⊎◌, refl, ap, ◌∙◌, inl, inr, true, false, List, [], ◌∷◌, ◌++◌, arith, ◌==◌, ==_iff,
  Bool-cases,
}
use mysql_redshift_agent.Text.{Text}
use mysql_redshift_agent.Csv.{
  Dialect, excel, tabs, quote, has_char, is_special, needs_quotes, doubled, in_quotes, written,
}
use mysql_redshift_agent.Csv.Reader.{
  is_control, has_control, quoting, separating, returning, ending, ordinary, kind_of, Mode, fresh,
  plain, quoted, behind_quote, finish_row, with_row, read,
}

-- The two dialects of the scripts, and their kind.
pub record IsDialect (d : Dialect) : Type 0 where
  pub separates : kind_of d.delimiter d.delimiter ≡ separating
  pub ends : (d.line_end ≡ 13 ∷ 10 ∷ []) ⊎ (d.line_end ≡ 10 ∷ [])
  pub returns : kind_of d.delimiter 13 ≡ returning
  pub feeds : kind_of d.delimiter 10 ≡ ending

pub excel-IsDialect : IsDialect excel
unfolding kind_of
excel-IsDialect = record { separates = refl; ends = inl refl; returns = refl; feeds = refl }

pub tabs-IsDialect : IsDialect tabs
unfolding kind_of
tabs-IsDialect = record { separates = refl; ends = inr refl; returns = refl; feeds = refl }

ordinary_lem : (d c : ℕ) → is_control d c ≡ false → kind_of d c ≡ ordinary
unfolding is_control kind_of
ordinary_lem d c h = ground arith

quote_lem : (d : ℕ) → kind_of d quote ≡ quoting
unfolding kind_of
quote_lem d = refl

-- One step of the reader in each place.
module _ (d : ℕ) (row : List Text) (field : Text) (c : ℕ) (rest : Text) where
  quoted_step :
      (c == quote) ≡ false
      → read d quoted row field (c ∷ rest) ≡ read d quoted row (field ++ c ∷ []) rest
  unfolding read
  quoted_step h = rw (read, h) refl

  plain_step :
      kind_of d c ≡ ordinary
      → read d plain row field (c ∷ rest) ≡ read d plain row (field ++ c ∷ []) rest
  unfolding read
  plain_step h = rw (read, h) refl

  fresh_step :
      kind_of d c ≡ ordinary → read d fresh row field (c ∷ rest) ≡ read d plain row (c ∷ []) rest
  unfolding read
  fresh_step h = rw (read, h) refl

doubled_other : (c : ℕ) (s : Text) → (c == quote) ≡ false → doubled (c ∷ s) ≡ c ∷ doubled s
unfolding doubled
doubled_other c s h = rw h refl

read-doubled-quote :
    (d : ℕ) (row : List Text) (s field rest : Text)
    → read d quoted row field (doubled (quote ∷ s) ++ rest)
      ≡ read d quoted row (field ++ quote ∷ []) (doubled s ++ rest)
unfolding read doubled kind_of
read-doubled-quote d row s field rest = refl

read-doubled_end :
    (d : ℕ) (row : List Text) (field rest : Text)
    → read d quoted row field (doubled [] ++ quote ∷ rest)
      ≡ read d behind_quote row (field ++ []) rest
unfolding read doubled
read-doubled_end d row field rest = rw (append-nil field) refl

read-doubled :
    (d : ℕ) (row : List Text) (s field rest : Text)
    → read d quoted row field (doubled s ++ quote ∷ rest)
      ≡ read d behind_quote row (field ++ s) rest
read-doubled d row [] field rest = read-doubled_end d row field rest
read-doubled d row (c ∷ s) field rest = elim (Bool-cases (c == quote)) [
  | inl e ↦
      let q : c ≡ quote = (==_iff c quote).0 e in
      rw q (
        read-doubled-quote d row s field (quote ∷ rest)
        ∙ read-doubled d row s (field ++ quote ∷ []) rest
        ∙ ap (λ x. read d behind_quote row x rest) (append_assoc field (quote ∷ []) s))
  | inr e ↦ rw (doubled_other c s e) (
      quoted_step d row field c _ e
      ∙ read-doubled d row s (field ++ c ∷ []) rest
      ∙ ap (λ x. read d behind_quote row x rest) (append_assoc field (c ∷ []) s))
]

read-plain :
    (d : ℕ) (row : List Text) (s field rest : Text)
    → has_control d s ≡ false
    → read d plain row field (s ++ rest) ≡ read d plain row (field ++ s) rest
unfolding has_control
read-plain d row [] field rest h = rw (append-nil field) refl
read-plain d row (c ∷ s) field rest h = elim (Bool-cases (is_control d c)) [
  | inl e ↦ absurd (cc (rw e at h))
  | inr e ↦
      plain_step d row field c _ (ordinary_lem d c e)
      ∙ read-plain d row s (field ++ c ∷ []) rest (rw e at h)
      ∙ ap (λ x. read d plain row x rest) (append_assoc field (c ∷ []) s)
]

-- Where the reader stands behind a field.
pub data Behind : Mode → Text → Type 0 where
  empty : Behind fresh []
  unquoted : (s : Text) → Behind plain s
  closed : (s : Text) → Behind behind_quote s

fresh-quote :
    (d : ℕ) (row : List Text) (rest : Text)
    → read d fresh row [] (quote ∷ rest) ≡ read d quoted row [] rest
unfolding read
fresh-quote d row rest = rw (read, quote_lem d) refl

pub read-in_quotes :
    (d : ℕ) (row : List Text) (s rest : Text)
    → read d fresh row [] (in_quotes s ++ rest) ≡ read d behind_quote row s rest
unfolding in_quotes
read-in_quotes d row s rest =
    opening_step
    ∙ ap (read d quoted row []) (append_assoc (doubled s) (quote ∷ []) rest)
    ∙ read-doubled d row s [] rest
  where
    opening_step :
        read d fresh row [] (in_quotes s ++ rest)
        ≡ read d quoted row [] ((doubled s ++ quote ∷ []) ++ rest)
    opening_step = fresh-quote d row _

first_ordinary :
    (d c : ℕ) (s : Text)
    → has_control d (c ∷ s) ≡ false
    → (kind_of d c ≡ ordinary) × (has_control d s ≡ false)
unfolding has_control
first_ordinary d c s h = elim (Bool-cases (is_control d c)) [
  | inl e ↦ absurd (cc (rw e at h))
  | inr e ↦ (ordinary_lem d c e, rw e at h)
]

-- A field that has no carriage return, or is quoted for it.
abbrev pub IsReadable : Dialect → Text → Type 0
IsReadable d s = (has_char 13 s ≡ false) ⊎ (has_char 13 d.line_end ≡ true)

pub excel-IsReadable : (s : Text) → IsReadable excel s
unfolding has_char
excel-IsReadable s = inr refl

is_control-false :
    (d : Dialect)
    → IsDialect d
    → (c : ℕ) → is_control d.delimiter c ≡ false
    → is_special d c ≡ false
unfolding is_control is_special has_char
is_control-false d ok c h = elim ok.ends [
  | inl e ↦ rw e (ground arith)
  | inr e ↦ rw e (ground arith)
]

is_special-false :
    (d : Dialect)
    → IsDialect d
    → (c : ℕ) → is_special d c ≡ false
    → ((13 == c) ≡ false) ⊎ (has_char 13 d.line_end ≡ true)
    → is_control d.delimiter c ≡ false
unfolding is_control is_special has_char
is_special-false d ok c h k = elim ok.ends [
  | inl e ↦ ground (arith, rw e at h)
  | inr e ↦ ground (arith, rw e at h, rw e at k)
]

pub has_control-false :
    (d : Dialect)
    → IsDialect d
    → (s : Text) → has_control d.delimiter s ≡ false
    → needs_quotes d s ≡ false
unfolding has_control needs_quotes has_char
has_control-false d ok [] h = refl
has_control-false d ok (c ∷ s) h = elim (Bool-cases (is_control d.delimiter c)) [
  | inl e ↦ absurd (cc (rw e at h))
  | inr e ↦ rw (is_control-false d ok c e) (has_control-false d ok s (rw e at h))
]

pub control-IsReadable :
    (d : Dialect) → IsDialect d → (s : Text) → has_control d.delimiter s ≡ false → IsReadable d s
unfolding has_control is_control has_char
control-IsReadable d ok s h = inl (no_return s h)
  where
    no_return : (s : Text) → has_control d.delimiter s ≡ false → has_char 13 s ≡ false
    no_return [] h = refl
    no_return (c ∷ s) h = ground (arith, no_return s)

needs_quotes-false :
    (d : Dialect)
    → IsDialect d
    → (s : Text) → IsReadable d s
    → needs_quotes d s ≡ false
    → has_control d.delimiter s ≡ false
unfolding has_control needs_quotes has_char
needs_quotes-false d ok [] k h = refl
needs_quotes-false d ok (c ∷ s) k h = elim (Bool-cases (is_special d c)) [
  | inl e ↦ absurd (cc (rw e at h))
  | inr e ↦
      let (first, rest) = split k in
      rw (is_special-false d ok c e first) (needs_quotes-false d ok s rest (rw e at h))
]
  where
    split :
        IsReadable d (c ∷ s)
        → (((13 == c) ≡ false) ⊎ (has_char 13 d.line_end ≡ true)) × IsReadable d s
    split (inl h) = (inl (ground arith), inl (ground arith))
    split (inr h) = (inr h, inr h)

pub read-written :
    (d : Dialect)
    → IsDialect d
    → (row : List Text) (s rest : Text) → IsReadable d s
    → (m : Mode) × Behind m s
      × (read d.delimiter fresh row [] (written d s ++ rest) ≡ read d.delimiter m row s rest)
unfolding written needs_quotes
read-written d ok row [] rest readable = (fresh, empty, refl)
read-written d ok row (c ∷ s) rest readable = elim (Bool-cases (needs_quotes d (c ∷ s))) [
  | inl e ↦
      (behind_quote, closed (c ∷ s), rw (written, e) (read-in_quotes d.delimiter row (c ∷ s) rest))
  | inr e ↦
      let (o, h) = first_ordinary d.delimiter c s (needs_quotes-false d ok (c ∷ s) readable e) in
      (
        plain,
        unquoted (c ∷ s),
        rw (written, e)
            (fresh_step d.delimiter row [] c _ o ∙ read-plain d.delimiter row s (c ∷ []) rest h),
      )
]

-- What follows a field: the delimiter, or the end of the line.
pub Behind-delimiter :
    (d : ℕ) {m : Mode} {s : Text} (row : List Text) (rest : Text)
    → kind_of d d ≡ separating
    → Behind m s
    → read d m row s (d ∷ rest) ≡ read d fresh (row ++ s ∷ []) [] rest
unfolding read
Behind-delimiter d row rest h empty = rw (read, h) refl
Behind-delimiter d row rest h (unquoted s) = rw (read, h) refl
Behind-delimiter d row rest h (closed s) = rw (read, h) refl

pub Behind-return :
    (d : ℕ) {m : Mode} {s : Text} (row : List Text) (rest : Text)
    → kind_of d 13 ≡ returning
    → Behind m s
    → read d m row s (13 ∷ rest) ≡ read d m row s rest
unfolding read
Behind-return d row rest h empty = rw (read, h) refl
Behind-return d row rest h (unquoted s) = rw (read, h) refl
Behind-return d row rest h (closed s) = rw (read, h) refl

pub Behind-feed :
    (d : ℕ) {m : Mode} {s : Text} (row : List Text) (rest : Text)
    → kind_of d 10 ≡ ending
    → Behind m s
    → read d m row s (10 ∷ rest) ≡ with_row (finish_row m row s) (read d fresh [] [] rest)
unfolding read
Behind-feed d row rest h empty = rw (read, h) refl
Behind-feed d row rest h (unquoted s) = rw (read, h) refl
Behind-feed d row rest h (closed s) = rw (read, h) refl
