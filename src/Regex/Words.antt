-- ===== src/Regex/Words.antt =====
-- Where a search stops, and what a pattern of words matches.
use mathlib.Core.Path.{subst}
use mathlib.Core.Option.{some-injective}
use mysql_redshift_agent.Prelude.{
  ℕ, ◌≤◌, ◌≡◌, refl, ap, inl, inr, Bool, false, Option, some, List, [], ◌∷◌, ◌++◌, map, All, Elem,
  arith, ◌==◌, Option-cases,
}
use mysql_redshift_agent.Text.{Text, Unicode, is_space}
use mysql_redshift_agent.Regex.{
  Regex, word, alternatives, fold_case, accepts, Before, run, Found, push, search_from,
}
use mysql_redshift_agent.Regex.Occurs.{
  Matches, of_empty, of_char, of_seq, of_left, of_right, run-Sound,
}

-- A search that succeeds at `at`: what stands before it, and the match from it on.
pub record FoundAt {ℓ} {R : Type ℓ} (u : Unicode) (r : Regex) (s : Text)
    (k : Before → Text → Option R) (f : Found R) : Type ℓ where
  pub splits : s ≡ f.prefix ++ f.at
  pub before : Before
  pub after : Before
  pub rest : Text
  pub matched : Matches u r before f.at after rest
  pub gave : k after rest ≡ some f.result

module _ {ℓ} {R : Type ℓ} (u : Unicode) (r : Regex) (k : Before → Text → Option R) where
  FoundAt-here :
      (p : Before) (s : Text) (v : R)
      → run u r p s k ≡ some v
      → FoundAt u r s k (record { prefix = []; at = s; result = v })
  FoundAt-here p s v h =
      let (p', s', d, e) = run-Sound u r p s k v h in
      record { splits = refl; before = p; after = p'; rest = s'; matched = d; gave = e }

  FoundAt-later :
      (c : ℕ) (s : Text) (f : Found R) → FoundAt u r s k f → FoundAt u r (c ∷ s) k (push c f)
  FoundAt-later c s f h = record {
    splits = ap (λ t. c ∷ t) h.splits;
    before = h.before;
    after = h.after;
    rest = h.rest;
    matched = h.matched;
    gave = h.gave;
  }

  pub search-FoundAt :
      (p : Before) (s : Text) (f : Found R) → search_from u r p s k ≡ some f → FoundAt u r s k f
  unfolding search_from
  search-FoundAt p [] f h = elim (Option-cases (run u r p [] k)) [
    | inl miss ↦ absurd (cc (rw (miss, search_from) at h))
    | inr (v, hit) ↦
        subst (FoundAt u r [] k) (some-injective _ _ (rw (hit, search_from) at h))
          (FoundAt-here p [] v hit)
  ]
  search-FoundAt p (c ∷ s) f h = elim (Option-cases (run u r p (c ∷ s) k)) [
    | inl miss ↦ elim (Option-cases (search_from u r (some c) s k)) [
      | inl none_later ↦ absurd (cc (rw (miss, none_later, search_from) at h))
      | inr (g, found_later) ↦
          subst (FoundAt u r (c ∷ s) k)
            (some-injective _ _ (rw (miss, found_later, search_from) at h))
            (FoundAt-later c s g (search-FoundAt (some c) s g found_later))
    ]
    | inr (v, hit) ↦
        subst (FoundAt u r (c ∷ s) k) (some-injective _ _ (rw (hit, search_from) at h))
          (FoundAt-here p (c ∷ s) v hit)
  ]

fold_all : Text → Text
fold_all = map fold_case

module _ (u : Unicode) where
  -- A word matches the texts of its length that are equal to it up to case.
  pub Matches-word :
      (w : Text) {p p' : Before} {s s' : Text}
      → Matches u (word w) p s p' s'
      → (a : Text) × (s ≡ a ++ s') × (map fold_case a ≡ map fold_case w)
  unfolding accepts
  Matches-word [] of_empty = ([], refl, refl)
  Matches-word (c ∷ w) (of_seq (of_char {x = x} e) d) =
      let (a, q, f) = Matches-word w d in (x ∷ a, ap (λ t. x ∷ t) q, ground (arith, f))

  pub Matches-alternatives :
      (w : Text) (ws : List Text) {p p' : Before} {s s' : Text}
      → Matches u (alternatives w ws) p s p' s'
      → (v : Text) × Elem v (w ∷ ws) × Matches u (word v) p s p' s'
  Matches-alternatives w [] d = (w, inl refl, d)
  Matches-alternatives w (v ∷ ws) (of_left d) = (w, inl refl, d)
  Matches-alternatives w (v ∷ ws) (of_right d) =
      let (x, m, e) = Matches-alternatives v ws d in (x, inr m, e)

abbrev pub IsLetter : ℕ → Type 0
IsLetter c = (97 ≤ c) × (c ≤ 122)

letter-not_space : (c : ℕ) → IsLetter (fold_case c) → is_space c ≡ false
unfolding fold_case is_space
letter-not_space c h = ground arith

letter-not_semicolon : (c : ℕ) → IsLetter (fold_case c) → (c == b';') ≡ false
unfolding fold_case
letter-not_semicolon c h = ground arith

abbrev pub IsWord : Text → Type 0
IsWord [] = ⊥
IsWord (c ∷ []) = IsLetter (fold_case c)
IsWord (c ∷ d ∷ w) = IsLetter (fold_case c) × IsWord (d ∷ w)

-- A text equal to a word of letters up to case holds no white space and no semicolon.
pub word_chars :
    (p : ℕ → Bool)
    → ((c : ℕ) → IsLetter (fold_case c) → p c ≡ false)
    → (w a : Text) → IsWord w
    → map fold_case a ≡ map fold_case w
    → All (λ c. p c ≡ false) a
word_chars p out [] a h e = absurd h
word_chars p out (x ∷ w) [] h e = tt
word_chars p out (x ∷ []) (c ∷ []) h e =
    let q : fold_case c ≡ fold_case x = cc in (out c (rw q h), tt)
word_chars p out (x ∷ []) (c ∷ d ∷ a) h e = absurd (cc)
word_chars p out (x ∷ y ∷ w) (c ∷ a) h e =
    let q : fold_case c ≡ fold_case x = cc in
    (out c (rw q h.0), word_chars p out (y ∷ w) a h.1 (cc))

pub word-not_space :
    (w a : Text) → IsWord w → map fold_case a ≡ map fold_case w → All (λ c. is_space c ≡ false) a
word-not_space = word_chars is_space letter-not_space

pub word-not_semicolon :
    (w a : Text) → IsWord w → map fold_case a ≡ map fold_case w → All (λ c. (c == b';') ≡ false) a
word-not_semicolon = word_chars (λ c. c == b';') letter-not_semicolon
