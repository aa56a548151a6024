-- ===== src/Gen/Widths.antt =====
-- The fields of an order fit the columns of the table that they are loaded into.
use mysql_redshift_agent.Prelude.{
  ℕ, zero, suc, ◌+◌, ◌-◌, ◌*◌, ◌/◌, ◌%◌, ◌^◌, ◌≤◌, ◌<◌, ◌≡◌, refl, inl, inr, Bool, true, ◌&&◌, List,
  [], ◌∷◌, length, All, Elem, arith, ltb, leb, Bool-cases, both_true, if_both, length-append,
}
use mysql_redshift_agent.Text.{Text, codes}
use mysql_redshift_agent.Gen.Constants.{
  processors, app_ids, countries, platforms, langs, price_points, versions, currencies, game_names,
  iap_products,
}
use mysql_redshift_agent.Gen.Decimal.{digits_of, str_nat, two_digits, event_time_of, ten_to}
use mysql_redshift_agent.Gen.Bounds.{IsSource, randint_bounds}
use mysql_redshift_agent.Gen.Every.{generate-All}
use mysql_redshift_agent.Gen.{
  RandomSource, Args, User, item, line_of, randint, choice, choose_product, number_between,
  pick_white, pick_user, pick_order, generate,
}

-- The columns of the table of scripts/schema.sql: the length of a VARCHAR, the decimal digits that an
-- integer type always holds, and the length of the text of a DATETIME and of a DECIMAL(12,4).
abbrev pub column_widths : List ℕ
column_widths =
    64 ∷ 32 ∷ 64 ∷ 19 ∷ 18 ∷ 16 ∷ 16 ∷ 8 ∷ 16 ∷ 8 ∷ 4 ∷ 4 ∷ 13 ∷ 2 ∷ 16 ∷ 32 ∷ 128 ∷ 128 ∷ 16 ∷ 128
    ∷ 32 ∷ 8 ∷ 64 ∷ 18 ∷ []

-- There is a field for each column, none longer than the column.
pub data Fits : List ℕ → List Text → Type 0 where
  none : Fits [] []
  ◌&◌ :
      {w : ℕ} {ws : List ℕ} {s : Text} {texts : List Text}
      → length s ≤ w
      → Fits ws texts
      → Fits (w ∷ ws) (s ∷ texts)

infixr 4 ◌&◌
-- Numbers below a power of ten have at most so many digits.
length-digits_of : (f n m : ℕ) → n < ten_to m → 0 < m → length (digits_of f n) ≤ m
unfolding digits_of ten_to
length-digits_of zero n m h p = omega arith
length-digits_of (suc f) n zero h p = absurd (omega arith)
length-digits_of (suc f) n (suc zero) h p = elim (Bool-cases (ltb n 10)) [
  | inl e ↦ rw (digits_of, e) (omega arith)
  | inr e ↦ absurd (ground arith)
]
length-digits_of (suc f) n (suc (suc m)) h p = elim (Bool-cases (ltb n 10)) [
  | inl e ↦ rw (digits_of, e) (omega arith)
  | inr e ↦
      let fewer = length-digits_of f (n / 10) (suc m) (omega arith) (omega arith) in
      rw (digits_of, e)
        (omega (arith, length-append (digits_of f (n / 10)) ((48 + n % 10) ∷ []), fewer))
]

length-str_nat : (n m : ℕ) → n < ten_to m → 0 < m → length (str_nat n) ≤ m
unfolding str_nat
length-str_nat n m h p = length-digits_of (suc n) n m h p

item-Elem : (xs : List Text) (i : ℕ) → i < length xs → Elem (item [] xs i) xs
unfolding item
item-Elem [] i h = absurd (omega (arith, h))
item-Elem (x ∷ xs) zero h = inl refl
item-Elem (x ∷ xs) (suc i) h = inr (item-Elem xs i (omega (arith, h)))

length-event_time_of : (k : ℕ) → length (event_time_of k) ≤ 19
unfolding event_time_of two_digits
length-event_time_of k = omega arith

-- Texts of at most `w` characters.
all_within : ℕ → List Text → Bool
all_within w [] = true
all_within w (s ∷ texts) = leb (length s) w && all_within w texts

within-item :
    (w : ℕ) (texts : List Text) (i : ℕ) → all_within w texts ≡ true → length (item [] texts i) ≤ w
unfolding all_within item
within-item w [] i h = omega arith
within-item w (s ∷ texts) zero h =
    ground (arith, both_true (leb (length s) w) (all_within w texts) h)
within-item w (s ∷ texts) (suc i) h =
    within-item w texts i (both_true (leb (length s) w) (all_within w texts) h).1

-- The constants are within their columns.
constants_fit :
    (all_within 32 processors ≡ true)
    × (all_within 16 app_ids ≡ true)
    × (all_within 8 countries ≡ true)
    × (all_within 16 platforms ≡ true)
    × (all_within 8 langs ≡ true)
    × (all_within 16 price_points ≡ true)
    × (all_within 32 versions ≡ true)
    × (all_within 8 currencies ≡ true)
    × (all_within 64 game_names ≡ true)
unfolding all_within
constants_fit = (refl, refl, refl, refl, refl, refl, refl, refl, refl)

products_within : List (Text × Text × Text) → Bool
products_within [] = true
products_within (p ∷ products) = all_within 128 (p.0 ∷ p.1 ∷ p.2 ∷ []) && products_within products

products_fit : products_within iap_products ≡ true
unfolding products_within all_within
products_fit = refl

abbrev IsNamed : Text × Text × Text → Type 0
IsNamed p = (length p.0 ≤ 128) × (length p.1 ≤ 128) × (length p.2 ≤ 128)

product-IsNamed :
    (p : Text × Text × Text) → all_within 128 (p.0 ∷ p.1 ∷ p.2 ∷ []) ≡ true → IsNamed p
unfolding all_within
product-IsNamed p h = ground arith

item-IsNamed :
    (products : List (Text × Text × Text)) (i : ℕ)
    → products_within products ≡ true
    → IsNamed (item ([], [], []) products i)
unfolding products_within item
item-IsNamed [] i h = (omega arith, omega arith, omega arith)
item-IsNamed (p ∷ products) zero h = product-IsNamed p (both_true _ _ h).0
item-IsNamed (p ∷ products) (suc i) h = item-IsNamed products i (both_true _ _ h).1

-- The fields of a user within their columns.
record FitsUser (u : User) : Type 0 where
  uid : length u.uid ≤ 32
  fpid : length u.fpid ≤ 18
  country : length u.country ≤ 8
  platform : length u.platform ≤ 16
  lang : length u.lang ≤ 8
  device_level : length u.device_level ≤ 4
  city_level : length u.city_level ≤ 4
  version : length u.version ≤ 32
  currency : length u.currency ≤ 8
  is_white_user : length u.is_white_user ≤ 2
  game_name : length u.game_name ≤ 64
  app_id : length u.app_id ≤ 16
  gameserver_id : length u.gameserver_id ≤ 16

-- What the library gives for an amount, which is at most 1.15 times a price, and for a timestamp.
pub record IsWithin (r : RandomSource) : Type 0 where
  pub source : IsSource r
  pub amount : (price : Text) (x : ℕ) → Elem price price_points → length (r.amount price x) ≤ 13
  pub timestamp : (k : ℕ) → r.timestamp_ms k < 10 ^ 18

module _ (r : RandomSource) (ok : IsWithin r) where
  number_between-length :
      (a b m : ℕ) (s : r.State)
      → a ≤ b
      → b < ten_to m
      → 0 < m
      → length (number_between r a b s).0 ≤ m
  unfolding number_between
  number_between-length a b m s h l p =
      let (low, high) = randint_bounds r ok.source a b s h in
      length-str_nat (randint r a b s).0 m (omega arith) p

  choice-length :
      (w : ℕ) (texts : List Text) (s : r.State)
      → all_within w texts ≡ true
      → length (choice r texts s).0 ≤ w
  unfolding choice
  choice-length w texts s h = within-item w texts _ h

  choice-Elem : (s : r.State) → Elem (choice r price_points s).0 price_points
  unfolding choice
  choice-Elem s = item-Elem price_points _ (ok.source.below_lt _ s (omega arith))

  length-pick_white : (s : r.State) → length (pick_white r s).0 ≤ 2
  unfolding pick_white
  length-pick_white s =
      if_both (λ t. length t ≤ 2) (ltb (8 * (r.unit s).0) 3602879701896397) (codes "1") (codes "0")
        (λ _. omega arith) (λ _. omega arith)

  choose_product-IsNamed : (s : r.State) → IsNamed (choose_product r s).0
  unfolding choose_product
  choose_product-IsNamed s = item-IsNamed iap_products _ products_fit

  pick_user-FitsUser :
      (u_idx : ℕ) (s : r.State) → u_idx < 10 ^ 31 → FitsUser (pick_user r u_idx s).0
  unfolding pick_user ten_to
  pick_user-FitsUser u_idx s few =
      let (p, a, c, f, l, pp, v, cu, g) = constants_fit in
      record {
        uid = length-str_nat (100_000_000 + u_idx) 32 (omega (arith, few)) (omega arith);
        fpid = omega (
          arith,
          number_between-length (10 ^ 12) (10 ^ 13 - 1) 13 s (omega arith) (omega arith)
              (omega arith),
        );
        country = choice-length 8 countries _ c;
        platform = choice-length 16 platforms _ f;
        lang = choice-length 8 langs _ l;
        device_level = number_between-length 1 5 4 _ (omega arith) (omega arith) (omega arith);
        city_level = number_between-length 1 7 4 _ (omega arith) (omega arith) (omega arith);
        version = choice-length 32 versions _ v;
        currency = choice-length 8 currencies _ cu;
        is_white_user = length-pick_white _;
        game_name = choice-length 64 game_names _ g;
        app_id = choice-length 16 app_ids _ a;
        gameserver_id = number_between-length 1 200 16 _ (omega arith) (omega arith) (omega arith);
      }

  pick_order-Fits : (u : User) (s : r.State) → FitsUser u → Fits column_widths (pick_order r u s).0
  unfolding pick_order ten_to
  pick_order-Fits u s h =
      let (p, a, c, f, l, pp, v, cu, g) = constants_fit in
      let (id, name, name_cn) = choose_product-IsNamed (r.unit (choice r price_points s).1).1 in
      h.game_name
      & h.uid
      & number_between-length (10 ^ 15) (10 ^ 16 - 1) 64 _ (omega arith) (omega arith) (omega arith)
      & length-event_time_of _
      & h.fpid
      & h.app_id
      & h.platform
      & h.country
      & h.gameserver_id
      & h.lang
      & h.device_level
      & h.city_level
      & ok.amount _ _ (choice-Elem s)
      & h.is_white_user
      & h.app_id
      & choice-length 32 processors _ p
      & id
      & name
      & choice-length 16 price_points _ pp
      & name_cn
      & h.version
      & h.currency
      & number_between-length (10 ^ 25) (10 ^ 26 - 1) 64 _ (omega arith) (omega arith) (omega arith)
      & length-str_nat _ 18 (ok.timestamp _) (omega arith)
      & none

  -- Where the generator draws below its bounds, there are at most 10 ^ 31 users, the amounts for the prices have at most 13 characters and the timestamps
  -- are below 10 ^ 18, every line is a row with a field for each column of the table, none longer than
  -- the column takes.
  pub generate-Fits :
      (args : Args) (s : r.State)
      → args.uids ≤ 10 ^ 31
      → All
          (λ line. (fields : List Text) × (line ≡ line_of fields) × Fits column_widths fields)
          (generate r args s).lines
  generate-Fits args s few =
      generate-All r args
        (λ line. (fields : List Text) × (line ≡ line_of fields) × Fits column_widths fields)
        FitsUser (λ u_idx s h. pick_user-FitsUser u_idx s (omega (arith, few, h)))
        (λ u s h. (_, refl, pick_order-Fits u s h)) s
