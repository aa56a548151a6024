-- ===== src/Gen/Plain.antt =====
-- Fields that the rows hold as they are: no quote, no tab and no line break.
use mysql_redshift_agent.Prelude.{
  ℕ, zero, suc, ◌+◌, ◌/◌, ◌%◌, ◌<◌, ◌≡◌, refl, inl, inr, Bool, true, false, ◌&&◌, not, List, [],
  ◌∷◌, ◌++◌, All, arith, ltb, Bool-cases, both_true, not-true,
}
use mysql_redshift_agent.Text.{Text, codes}
use mysql_redshift_agent.Csv.Reader.{is_control, has_control}
use mysql_redshift_agent.Gen.Constants.{
  processors, app_ids, countries, platforms, langs, price_points, versions, currencies, game_names,
  iap_products,
}
use mysql_redshift_agent.Gen.Decimal.{digits_of, two_digits, event_time_of}
use mysql_redshift_agent.Gen.{item}

-- A field that is written as it is.
abbrev pub IsPlain : Text → Type 0
IsPlain s = has_control 9 s ≡ false

pub has_control-append : (s t : Text) → IsPlain s → IsPlain t → IsPlain (s ++ t)
unfolding has_control
has_control-append [] t h k = k
has_control-append (c ∷ s) t h k = elim (Bool-cases (is_control 9 c)) [
  | inl e ↦ absurd (cc (rw e at h))
  | inr e ↦ rw e (has_control-append s t (rw e at h) k)
]

digit : (d : ℕ) → d < 10 → IsPlain ((48 + d) ∷ [])
unfolding has_control is_control
digit d h = ground arith

nothing : IsPlain []
unfolding has_control
nothing = refl

pub digits_of-IsPlain : (f n : ℕ) → IsPlain (digits_of f n)
unfolding digits_of
digits_of-IsPlain zero n = nothing
digits_of-IsPlain (suc f) n = elim (Bool-cases (ltb n 10)) [
  | inl e ↦ rw (digits_of, e) (digit n (ground arith))
  | inr e ↦
      rw (digits_of, e)
        (has_control-append _ _ (digits_of-IsPlain f (n / 10)) (digit (n % 10) (omega arith)))
]

pub two_digits-IsPlain : (n : ℕ) → IsPlain (two_digits n)
unfolding two_digits
two_digits-IsPlain n =
    has_control-append ((48 + n / 10 % 10) ∷ []) _ (digit (n / 10 % 10) (omega arith))
      (digit (n % 10) (omega arith))

-- A text of two digits behind a separator.
behind : (c n : ℕ) (s : Text) → is_control 9 c ≡ false → IsPlain s → IsPlain (c ∷ two_digits n ++ s)
unfolding has_control
behind c n s h k = rw h (has_control-append (two_digits n) s (two_digits-IsPlain n) k)

behind_last : (c n : ℕ) → is_control 9 c ≡ false → IsPlain (c ∷ two_digits n)
unfolding has_control
behind_last c n h = rw h (two_digits-IsPlain n)

year : IsPlain (codes "2023")
unfolding has_control is_control
year = refl

pub event_time_of-IsPlain : (k : ℕ) → IsPlain (event_time_of k)
unfolding event_time_of is_control
event_time_of-IsPlain k = has_control-append (codes "2023") _ year (
    behind _ _ _ refl
      (behind _ _ _ refl (behind _ _ _ refl (behind _ _ _ refl (behind_last _ _ refl)))))

-- Texts that are all written as they are.
unfoldable pub all_plain : List Text → Bool
all_plain [] = true
all_plain (s ∷ texts) = not (has_control 9 s) && all_plain texts

pub all_plain-item :
    (texts : List Text) (i : ℕ) → all_plain texts ≡ true → IsPlain (item [] texts i)
unfolding all_plain item
all_plain-item [] i h = nothing
all_plain-item (s ∷ texts) zero h = not-true _ (both_true _ _ h).0
all_plain-item (s ∷ texts) (suc i) h = all_plain-item texts i (both_true _ _ h).1

-- The constants that the script draws from.
pub constants_plain :
    (all_plain processors ≡ true)
    × (all_plain app_ids ≡ true)
    × (all_plain countries ≡ true)
    × (all_plain platforms ≡ true)
    × (all_plain langs ≡ true)
    × (all_plain price_points ≡ true)
    × (all_plain versions ≡ true)
    × (all_plain currencies ≡ true)
    × (all_plain game_names ≡ true)
unfolding all_plain has_control is_control
constants_plain = (refl, refl, refl, refl, refl, refl, refl, refl, refl)

-- The three texts of a product.
unfoldable pub all_products : List (Text × Text × Text) → Bool
all_products [] = true
all_products (p ∷ products) = all_plain (p.0 ∷ p.1 ∷ p.2 ∷ []) && all_products products

pub products_plain : all_products iap_products ≡ true
unfolding all_products all_plain has_control is_control
products_plain = refl

pub all_plain-All : (texts : List Text) → all_plain texts ≡ true → All IsPlain texts
unfolding all_plain
all_plain-All [] h = tt
all_plain-All (s ∷ texts) h =
    (not-true _ (both_true _ _ h).0, all_plain-All texts (both_true _ _ h).1)

pub product_item :
    (products : List (Text × Text × Text)) (i : ℕ)
    → all_products products ≡ true
    → all_plain (
        (item ([], [], []) products i).0
        ∷ (item ([], [], []) products i).1
        ∷ (item ([], [], []) products i).2
        ∷ [])
      ≡ true
unfolding all_products item all_plain has_control
product_item [] i h = refl
product_item (p ∷ products) zero h = (both_true _ _ h).0
product_item (p ∷ products) (suc i) h = product_item products i (both_true _ _ h).1
