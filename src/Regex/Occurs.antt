-- ===== src/Regex/Occurs.antt =====
-- What a regular expression matches, as a relation between positions, and the proof that the
-- backtracking matcher of Regex.antt decides it.
use mysql_redshift_agent.Prelude.{
  ℕ, ◌≡◌, refl, ap, ◌≢◌, ◌↔◌, ◌⊎◌, inl, inr, Bool, true, false, Option, none, some, [], ◌∷◌, arith,
  Bool-cases, Option-cases, is_some, is_some-true, if◌then◌else◌,
}
use mysql_redshift_agent.Text.{Text, Unicode}
use mysql_redshift_agent.Regex.{
  Class, Regex, empty, char, seq, alt, star, boundary, bol, eol, Before, accepts, at_boundary,
  at_start, at_end, or_else, run_star, run, search_from, rest_of, found, matches_here,
}

module _ (u : Unicode) where
  -- `Repeats c p s p' s'`: from the position (p, s) to (p', s') over characters of the class `c`.
  pub data Repeats (c : Class) : Before → Text → Before → Text → Type 0 where
    stop : {p : Before} {s : Text} → Repeats c p s p s
    more :
        {p p' : Before} {x : ℕ} {s s' : Text}
        → accepts u c x ≡ true
        → Repeats c (some x) s p' s'
        → Repeats c p (x ∷ s) p' s'

  -- `Matches r p s p' s'`: `r` matches the text between the two positions.
  pub data Matches : Regex → Before → Text → Before → Text → Type 0 where
    of_empty : {p : Before} {s : Text} → Matches empty p s p s
    of_char :
        {c : Class} {p : Before} {x : ℕ} {s : Text}
        → accepts u c x ≡ true
        → Matches (char c) p (x ∷ s) (some x) s
    of_seq :
        {r q : Regex} {p p' p'' : Before} {s s' s'' : Text}
        → Matches r p s p' s'
        → Matches q p' s' p'' s''
        → Matches (seq r q) p s p'' s''
    of_left :
        {r q : Regex} {p p' : Before} {s s' : Text}
        → Matches r p s p' s'
        → Matches (alt r q) p s p' s'
    of_right :
        {r q : Regex} {p p' : Before} {s s' : Text}
        → Matches q p s p' s'
        → Matches (alt r q) p s p' s'
    of_star :
        {c : Class} {p p' : Before} {s s' : Text} → Repeats c p s p' s' → Matches (star c) p s p' s'
    of_boundary : {p : Before} {s : Text} → at_boundary u p s ≡ true → Matches boundary p s p s
    of_bol : {p : Before} {s : Text} → at_start p ≡ true → Matches bol p s p s
    of_eol : {p : Before} {s : Text} → at_end s ≡ true → Matches eol p s p s

  -- `Occurs r p s`: `r` matches at (p, s) or at a later position.
  pub data Occurs (r : Regex) : Before → Text → Type 0 where
    here : {p p' : Before} {s s' : Text} → Matches r p s p' s' → Occurs r p s
    later : {p : Before} {c : ℕ} {s : Text} → Occurs r (some c) s → Occurs r p (c ∷ s)

-- A result of the matcher comes from a match, after which the continuation gave it.
abbrev pub Sound {ℓ} :
    {R : Type ℓ} → Unicode → Regex → Before → Text → (Before → Text → Option R) → R → Type ℓ
Sound u r p s k v = (p' : Before) × (s' : Text) × Matches u r p s p' s' × (k p' s' ≡ some v)

module _ {ℓ} {R : Type ℓ} (u : Unicode) where
  or_else-some : (a b : Option R) {v : R} → or_else a b ≡ some v → (a ≡ some v) ⊎ (b ≡ some v)
  unfolding or_else
  or_else-some (some r) b h = inl h
  or_else-some none b h = inr h

  guarded-some :
      (b : Bool) (o : Option R) {v : R}
      → (if b then o else none) ≡ some v
      → (b ≡ true) × (o ≡ some v)
  guarded-some true o h = (refl, h)
  guarded-some false o h = cc

  run_star_sound :
      (c : Class) (p : Before) (s : Text) (k : Before → Text → Option R) (v : R)
      → run_star u c p s k ≡ some v
      → (p' : Before) × (s' : Text) × Repeats u c p s p' s' × (k p' s' ≡ some v)
  unfolding run_star
  run_star_sound c p [] k v h = (p, [], stop, h)
  run_star_sound c p (x ∷ s) k v h = elim (Bool-cases (accepts u c x)) [
    | inl a ↦ elim (or_else-some _ _ (rw a at h)) [
      | inl deeper ↦
          let (p', s', d, e) = run_star_sound c (some x) s k v deeper in (p', s', more a d, e)
      | inr now ↦ (p, x ∷ s, stop, now)
    ]
    | inr a ↦ (p, x ∷ s, stop, rw a at h)
  ]

  pub run-Sound :
      (r : Regex) (p : Before) (s : Text) (k : Before → Text → Option R) (v : R)
      → run u r p s k ≡ some v
      → Sound u r p s k v
  unfolding run
  run-Sound empty p s k v h = (p, s, of_empty, h)
  run-Sound (char c) p [] k v h = cc
  run-Sound (char c) p (x ∷ s) k v h = let (a, e) = guarded-some _ _ h in (some x, s, of_char a, e)
  run-Sound (seq r q) p s k v h =
      let (p', s', d, e) = run-Sound r p s (λ p' s'. run u q p' s' k) v h in
      let (p'', s'', d', e') = run-Sound q p' s' k v e in (p'', s'', of_seq d d', e')
  run-Sound (alt r q) p s k v h = elim (or_else-some _ _ h) [
    | inl left ↦ let (p', s', d, e) = run-Sound r p s k v left in (p', s', of_left d, e)
    | inr right ↦ let (p', s', d, e) = run-Sound q p s k v right in (p', s', of_right d, e)
  ]
  run-Sound (star c) p s k v h =
      let (p', s', d, e) = run_star_sound c p s k v h in (p', s', of_star d, e)
  run-Sound boundary p s k v h = let (a, e) = guarded-some _ _ h in (p, s, of_boundary a, e)
  run-Sound bol p s k v h = let (a, e) = guarded-some _ _ h in (p, s, of_bol a, e)
  run-Sound eol p s k v h = let (a, e) = guarded-some _ _ h in (p, s, of_eol a, e)

  or_else-left : (a b : Option R) → a ≢ none → or_else a b ≢ none
  unfolding or_else
  or_else-left (some r) b h = h
  or_else-left none b h = λ e. h refl

  or_else-right : (a b : Option R) → b ≢ none → or_else a b ≢ none
  unfolding or_else
  or_else-right (some r) b h = λ e. cc
  or_else-right none b h = h

  run_star_complete :
      {c : Class} {p p' : Before} {s s' : Text} (k : Before → Text → Option R)
      → Repeats u c p s p' s'
      → k p' s' ≢ none
      → run_star u c p s k ≢ none
  unfolding run_star
  run_star_complete {s = []} k stop h = h
  run_star_complete {c} {p} {s = x ∷ s} k stop h = elim (Bool-cases (accepts u c x)) [
    | inl a ↦ rw a (or_else-right (run_star u c (some x) s k) _ h)
    | inr a ↦ rw a h
  ]
  run_star_complete {p} k (more {x = x} {s = s} a d) h =
      rw a (or_else-left _ (k p (x ∷ s)) (run_star_complete k d h))

  -- The matcher backtracks as far as it has to: it fails only if no match satisfies `k`.
  run_complete :
      {r : Regex} {p p' : Before} {s s' : Text} (k : Before → Text → Option R)
      → Matches u r p s p' s'
      → k p' s' ≢ none
      → run u r p s k ≢ none
  unfolding run
  run_complete k of_empty h = h
  run_complete k (of_char a) h = rw a h
  run_complete k (of_seq {q = q} d e) h =
      run_complete (λ p' s'. run u q p' s' k) d (run_complete k e h)
  run_complete k (of_left d) h = or_else-left _ _ (run_complete k d h)
  run_complete k (of_right d) h = or_else-right _ _ (run_complete k d h)
  run_complete k (of_star d) h = run_star_complete k d h
  run_complete k (of_boundary a) h = rw a h
  run_complete k (of_bol a) h = rw a h
  run_complete k (of_eol a) h = rw a h

module _ (u : Unicode) (r : Regex) where
  -- `re.match` succeeds exactly if the pattern matches at the start of the text.
  pub matches_here_iff :
      (s : Text)
      → (matches_here u r s ≡ true) ↔ ((p' : Before) × (s' : Text) × Matches u r none s p' s')
  unfolding matches_here
  matches_here_iff s = (
    λ h. elim (Option-cases (run u r none s rest_of)) [
      | inl miss ↦ absurd (cc (h, ap is_some miss))
      | inr (v, hit) ↦ let (p', s', d, _) = run-Sound u r none s rest_of v hit in (p', s', d)
    ],
    λ m. elim (Option-cases (run u r none s rest_of)) [
      | inl miss ↦ absurd (run_complete u rest_of m.2 (λ e. cc) miss)
      | inr (v, hit) ↦ rw (hit, matches_here)
    ],
  )

  search-Occurs : (p : Before) (s : Text) → search_from u r p s rest_of ≢ none → Occurs u r p s
  unfolding search_from
  search-Occurs p [] h = elim (Option-cases (run u r p [] rest_of)) [
    | inl miss ↦ absurd (h (rw (miss, search_from)))
    | inr (v, hit) ↦ let (p', s', d, _) = run-Sound u r p [] rest_of v hit in here d
  ]
  search-Occurs p (c ∷ s) h = elim (Option-cases (run u r p (c ∷ s) rest_of)) [
    | inl miss ↦ later (search-Occurs (some c) s (λ e. h (rw (miss, e, search_from))))
    | inr (v, hit) ↦ let (p', s', d, _) = run-Sound u r p (c ∷ s) rest_of v hit in here d
  ]

  run-search :
      (p : Before) (s : Text) → run u r p s rest_of ≢ none → search_from u r p s rest_of ≢ none
  unfolding search_from
  run-search p [] h = ground arith
  run-search p (c ∷ s) h = ground arith

  later-search :
      (p : Before) (c : ℕ) (s : Text)
      → search_from u r (some c) s rest_of ≢ none
      → search_from u r p (c ∷ s) rest_of ≢ none
  unfolding search_from
  later-search p c s h = ground arith

  Occurs-search : {p : Before} {s : Text} → Occurs u r p s → search_from u r p s rest_of ≢ none
  Occurs-search (here d) = run-search _ _ (run_complete u rest_of d (λ e. cc))
  Occurs-search (later o) = later-search _ _ _ (Occurs-search o)

  -- `re.search` succeeds exactly if the pattern occurs somewhere in the text.
  pub found_iff : (s : Text) → (found u r s ≡ true) ↔ Occurs u r none s
  unfolding found
  found_iff s =
      (λ h. search-Occurs none s (λ e. cc (h, ap is_some e)), λ o. is_some-true _ (Occurs-search o))
