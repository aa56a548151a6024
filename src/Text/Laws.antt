-- ===== src/Text/Laws.antt =====
-- Equality and order of texts, prefixes and joins.
use mathlib.Core.List.{append_assoc, append-nil}
use mysql_redshift_agent.Prelude.{
  ◌≡◌, refl, sym, ◌≢◌, ◌↔◌, Bool-cases, inl, inr, true, false, List, [], ◌∷◌, ◌++◌, Elem, arith,
}
use mysql_redshift_agent.Prelude.Sort.{IsOrder}
use mysql_redshift_agent.Text.{Text, text_eq, text_le, starts_with, join}

text_eq_sound : (s t : Text) → text_eq s t ≡ true → s ≡ t
unfolding text_eq
text_eq_sound [] [] h = refl
text_eq_sound [] (b ∷ t) h = cc
text_eq_sound (a ∷ s) [] h = cc
text_eq_sound (a ∷ s) (b ∷ t) h = ground (arith, text_eq_sound s t)

pub text_eq_refl : (s : Text) → text_eq s s ≡ true
unfolding text_eq
text_eq_refl [] = refl
text_eq_refl (a ∷ s) = ground (arith, text_eq_refl s)

pub text_eq_iff : (s t : Text) → (text_eq s t ≡ true) ↔ (s ≡ t)
text_eq_iff s t = (text_eq_sound s t, λ e. rw e (text_eq_refl t))

text_le-total : (s t : Text) → text_le s t ≡ false → text_le t s ≡ true
unfolding text_le
text_le-total [] t h = cc
text_le-total (a ∷ s) [] h = refl
text_le-total (a ∷ s) (b ∷ t) h = ground (arith, text_le-total s t)

text_le_trans : (s t r : Text) → text_le s t ≡ true → text_le t r ≡ true → text_le s r ≡ true
unfolding text_le
text_le_trans [] t r h k = refl
text_le_trans (a ∷ s) [] r h k = cc
text_le_trans (a ∷ s) (b ∷ t) [] h k = cc
text_le_trans (a ∷ s) (b ∷ t) (c ∷ r) h k = ground (arith, text_le_trans s t r)

text_le_antisymm : (s t : Text) → text_le s t ≡ true → text_le t s ≡ true → s ≡ t
unfolding text_le
text_le_antisymm [] [] h k = refl
text_le_antisymm [] (b ∷ t) h k = cc
text_le_antisymm (a ∷ s) [] h k = cc
text_le_antisymm (a ∷ s) (b ∷ t) h k = ground (arith, text_le_antisymm s t)

pub text_le-IsOrder : IsOrder text_le
text_le-IsOrder = record {
  total = text_le-total;
  trans = text_le_trans;
  antisymm = text_le_antisymm;
}

starts_with_sound : (p s : Text) → starts_with p s ≡ true → (rest : Text) × (s ≡ p ++ rest)
unfolding starts_with
starts_with_sound [] s h = (s, refl)
starts_with_sound (a ∷ p) [] h = cc
starts_with_sound (a ∷ p) (c ∷ s) h =
    let (rest, e) = starts_with_sound p s (ground arith) in (rest, ground arith)

pub starts_with-append : (p rest : Text) → starts_with p (p ++ rest) ≡ true
unfolding starts_with
starts_with-append [] rest = refl
starts_with-append (a ∷ p) rest = ground (arith, starts_with-append p rest)

pub starts_with_iff : (p s : Text) → (starts_with p s ≡ true) ↔ ((rest : Text) × (s ≡ p ++ rest))
starts_with_iff p s = (starts_with_sound p s, λ h. rw h.1 (starts_with-append p h.0))

-- Every part of a join stands in it.
pub join-Elem :
    (sep t : Text) (ts : List Text)
    → Elem t ts
    → (before : Text) × (after : Text) × (join sep ts ≡ before ++ (t ++ after))
unfolding join
join-Elem sep t [] h = elim h.lower [ ]
join-Elem sep t (x ∷ []) (inl e) = ([], [], rw (e, append-nil))
join-Elem sep t (x ∷ []) (inr h) = elim h.lower [ ]
join-Elem sep t (x ∷ y ∷ ts) (inl e) =
    ([], sep ++ join sep (y ∷ ts), rw e (append_assoc x sep (join sep (y ∷ ts))))
join-Elem sep t (x ∷ y ∷ ts) (inr h) =
    let (before, after, e) = join-Elem sep t (y ∷ ts) h in
    (x ++ sep ++ before, after, rw e (sym (append_assoc (x ++ sep) before (t ++ after))))

pub text_eq-false : (s t : Text) → s ≢ t → text_eq s t ≡ false
text_eq-false s t h = elim (Bool-cases (text_eq s t)) [
  | inl e ↦ absurd (h (text_eq_sound s t e))
  | inr e ↦ e
]
