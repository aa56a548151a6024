-- ===== src/Prelude/Sort.antt =====
-- Python's `sorted` by a key: stable insertion, over a test of order on the keys.
use Prim.Native.Nat.{suc}
use mathlib.Core.Path.{◌≡◌, refl, sym, ap, subst, ◌∙◌}
use mathlib.Core.Bool.{Bool, true, false}
use mathlib.Core.List.{List, [], ◌∷◌, Permᴰ}
use mathlib.Core.List.Permᴰ
use mathlib.Core.Logic.{inl, inr}
use native.Mathlib.Omega.{arith}
use mysql_redshift_agent.Prelude.Tests.{if◌then◌else◌, Bool-cases}
use mysql_redshift_agent.Prelude.Lists.{All, Elem, length}

-- What a comparison of keys has to satisfy.
pub record IsOrder {κ} {K : Type κ} (le : K → K → Bool) : Type κ where
  pub total : (a b : K) → le a b ≡ false → le b a ≡ true
  pub trans : (a b c : K) → le a b ≡ true → le b c ≡ true → le a c ≡ true
  pub antisymm : (a b : K) → le a b ≡ true → le b a ≡ true → a ≡ b

module _ {ℓ κ} {A : Type ℓ} {K : Type κ} (le : K → K → Bool) (key : A → K) where
  -- In front of the first element whose key is not below that of `x`.
  unfoldable pub insert_sorted : A → List A → List A
  insert_sorted x [] = x ∷ []
  insert_sorted x (y ∷ ys) = if le (key x) (key y) then x ∷ y ∷ ys else y ∷ insert_sorted x ys

  unfoldable pub sorted : List A → List A
  unfolding insert_sorted
  sorted [] = []
  sorted (x ∷ xs) = insert_sorted x (sorted xs)

  insert_sorted-perm : (x : A) (xs : List A) → Permᴰ (insert_sorted x xs) (x ∷ xs)
  unfolding insert_sorted
  insert_sorted-perm x [] = Permᴰ.cons refl Permᴰ.nil
  insert_sorted-perm x (y ∷ ys) = elim (Bool-cases (le (key x) (key y))) [
    | inl e ↦ rw e (Permᴰ.refl _)
    | inr e ↦ rw e (Permᴰ.trans (Permᴰ.cons refl (insert_sorted-perm x ys)) (Permᴰ.swap refl refl))
  ]

  pub sorted-perm : (xs : List A) → Permᴰ (sorted xs) xs
  unfolding sorted
  sorted-perm [] = Permᴰ.nil
  sorted-perm (x ∷ xs) =
      Permᴰ.trans (insert_sorted-perm x (sorted xs)) (Permᴰ.cons refl (sorted-perm xs))

  -- The key tells the elements of a list apart.
  abbrev pub Separates : List A → Type (ℓ ⊔ κ)
  Separates xs = (a b : A) → Elem a xs → Elem b xs → key a ≡ key b → a ≡ b

  module _ (o : IsOrder le) where
    insert_sorted_comm :
        (x y : A) (zs : List A)
        → (key x ≡ key y → x ≡ y)
        → insert_sorted x (insert_sorted y zs) ≡ insert_sorted y (insert_sorted x zs)
    unfolding insert_sorted
    insert_sorted_comm x y [] h =
        ground
          (arith, o.total (key x) (key y), o.total (key y) (key x), o.antisymm (key x) (key y), h)
    insert_sorted_comm x y (z ∷ zs) h = ground (
      arith,
      o.total (key x) (key y),
      o.total (key y) (key x),
      o.antisymm (key x) (key y),
      o.trans (key x) (key y) (key z),
      o.trans (key y) (key x) (key z),
      h,
      insert_sorted_comm x y zs h,
    )

module _ {ℓ} {A : Type ℓ} where
  pub Elem-perm : {l r : List A} (a : A) → Permᴰ l r → Elem a r → Elem a l
  Elem-perm a Permᴰ.nil h = h
  Elem-perm a (Permᴰ.cons e d) (inl p) = inl (p ∙ sym e)
  Elem-perm a (Permᴰ.cons e d) (inr h) = inr (Elem-perm a d h)
  Elem-perm a (Permᴰ.swap e f) (inl p) = inr (inl (p ∙ sym f))
  Elem-perm a (Permᴰ.swap e f) (inr (inl p)) = inl (p ∙ sym e)
  Elem-perm a (Permᴰ.swap e f) (inr (inr h)) = inr (inr h)
  Elem-perm a (Permᴰ.trans d d') h = Elem-perm a d (Elem-perm a d' h)

  pub All-perm {κ} : (P : A → Type κ) {l r : List A} → Permᴰ l r → All P l → All P r
  All-perm P Permᴰ.nil h = tt
  All-perm P (Permᴰ.cons e d) h = (subst P e h.0, All-perm P d h.1)
  All-perm P (Permᴰ.swap e f) h = (subst P f h.1.0, (subst P e h.0, h.1.1))
  All-perm P (Permᴰ.trans d d') h = All-perm P d' (All-perm P d h)

  pub length-perm : {l r : List A} → Permᴰ l r → length l ≡ length r
  length-perm Permᴰ.nil = refl
  length-perm (Permᴰ.cons e d) = ap suc (length-perm d)
  length-perm (Permᴰ.swap e f) = omega arith
  length-perm (Permᴰ.trans d d') = length-perm d ∙ length-perm d'

module _ {ℓ κ} {A : Type ℓ} {K : Type κ} {le : K → K → Bool} (key : A → K) (o : IsOrder le) where
  -- Where the key tells the elements apart, the order of the input does not matter.
  pub sorted_of_perm :
      {l r : List A} → Separates le key l → Permᴰ l r → sorted le key l ≡ sorted le key r
  unfolding sorted
  sorted_of_perm s Permᴰ.nil = refl
  sorted_of_perm s (Permᴰ.cons {b = b} e d) =
      rw e (ap (insert_sorted le key b) (sorted_of_perm (λ x y hx hy. s x y (inr hx) (inr hy)) d))
  sorted_of_perm s (Permᴰ.swap {a = a} {b = b} {a' = a'} {b' = b'} {l = l} e f) =
      rw (e, f)
        (insert_sorted_comm le key o b' a' (sorted le key l)
          (λ k. sym e ∙ (s a b (inl refl) (inr (inl refl)) (ap key e ∙ k ∙ sym (ap key f)) ∙ f)))
  sorted_of_perm s (Permᴰ.trans d d') =
      sorted_of_perm s d
      ∙ sorted_of_perm (λ x y hx hy. s x y (Elem-perm x d hx) (Elem-perm y d hy)) d'
