-- ===== src/Text/Strip.antt =====
-- What `strip` and `rstrip` leave.
use mysql_redshift_agent.Prelude.{
  ℕ, ◌≡◌, refl, ap, ◌∙◌, inl, inr, Bool, false, [], ◌∷◌, ◌++◌, All, Bool-cases, if◌then◌else◌,
}
use mysql_redshift_agent.Text.{Text, is_space, lstrip, rstrip_by, rstrip, strip}

-- No character that the test accepts stands at the end.
abbrev pub EndsClean : (ℕ → Bool) → Text → Type 0
EndsClean p [] = Unit
EndsClean p (c ∷ []) = p c ≡ false
EndsClean p (c ∷ d ∷ s) = EndsClean p (d ∷ s)

abbrev pub StartsClean : (ℕ → Bool) → Text → Type 0
StartsClean p [] = Unit
StartsClean p (c ∷ s) = p c ≡ false

module _ (p : ℕ → Bool) where
  rstrip_by-EndsClean : (s : Text) → EndsClean p (rstrip_by p s)
  unfolding rstrip_by
  rstrip_by-EndsClean [] = tt
  rstrip_by-EndsClean (c ∷ s) = step (rstrip_by p s) (rstrip_by-EndsClean s)
    where
      step :
          (t : Text)
          → EndsClean p t
          → EndsClean p (elim t [ [] ↦ if p c then [] else c ∷ [] | d ∷ r ↦ c ∷ d ∷ r ])
      step [] h = elim (Bool-cases (p c)) [ inl e ↦ rw e tt | inr e ↦ rw e e ]
      step (d ∷ r) h = h

  pub rstrip_by_clean : (s : Text) → EndsClean p s → rstrip_by p s ≡ s
  unfolding rstrip_by
  rstrip_by_clean [] h = refl
  rstrip_by_clean (c ∷ []) h = rw h
  rstrip_by_clean (c ∷ d ∷ s) h = rw (rstrip_by_clean (d ∷ s) h, rstrip_by)

  kept :
      (c : ℕ)
      → p c ≡ false
      → (t : Text)
      → (elim t as (λ x. Text) [ [] ↦ if p c then [] else c ∷ [] | d ∷ r ↦ c ∷ d ∷ r ]) ≡ c ∷ t
  kept c h [] = rw h
  kept c h (d ∷ r) = refl

  -- Characters that the test rejects stay, whatever stands behind them.
  pub rstrip_by-append :
      (a s : Text) → All (λ c. p c ≡ false) a → rstrip_by p (a ++ s) ≡ a ++ rstrip_by p s
  unfolding rstrip_by
  rstrip_by-append [] s h = refl
  rstrip_by-append (c ∷ a) s h =
      kept c h.0 (rstrip_by p (a ++ s)) ∙ ap (λ t. c ∷ t) (rstrip_by-append a s h.1)

  rstrip_by-StartsClean :
      (q : ℕ → Bool) (s : Text) → StartsClean q s → StartsClean q (rstrip_by p s)
  unfolding rstrip_by
  rstrip_by-StartsClean q [] h = tt
  rstrip_by-StartsClean q (c ∷ s) h = step (rstrip_by p s)
    where
      step :
          (t : Text)
          → StartsClean q (elim t [ [] ↦ if p c then [] else c ∷ [] | d ∷ r ↦ c ∷ d ∷ r ])
      step [] = elim (Bool-cases (p c)) [ inl e ↦ rw e tt | inr e ↦ rw e h ]
      step (d ∷ r) = h

lstrip-StartsClean : (s : Text) → StartsClean is_space (lstrip s)
unfolding lstrip
lstrip-StartsClean [] = tt
lstrip-StartsClean (c ∷ s) = elim (Bool-cases (is_space c)) [
  | inl e ↦ rw e (lstrip-StartsClean s)
  | inr e ↦ rw e e
]

lstrip_clean : (s : Text) → StartsClean is_space s → lstrip s ≡ s
unfolding lstrip
lstrip_clean [] h = refl
lstrip_clean (c ∷ s) h = rw h

-- No white space at either end.
pub record IsStripped (s : Text) : Type 0 where
  pub start : StartsClean is_space s
  pub end : EndsClean is_space s

pub strip-IsStripped : (s : Text) → IsStripped (strip s)
unfolding strip rstrip
strip-IsStripped s = record {
  start = rstrip_by-StartsClean is_space is_space (lstrip s) (lstrip-StartsClean s);
  end = rstrip_by-EndsClean is_space (lstrip s);
}

pub strip_of_IsStripped : (s : Text) → IsStripped s → strip s ≡ s
unfolding strip rstrip
strip_of_IsStripped s h = rw (lstrip_clean s h.start) (rstrip_by_clean is_space s h.end)

pub strip-append :
    (c : ℕ) (a s : Text)
    → All (λ x. is_space x ≡ false) (c ∷ a)
    → strip ((c ∷ a) ++ s) ≡ (c ∷ a) ++ rstrip s
unfolding strip rstrip
strip-append c a s h = rw (lstrip_clean ((c ∷ a) ++ s) h.0) (rstrip_by-append is_space (c ∷ a) s h)
