-- ===== src/Gen.antt =====
-- scripts/gen_50m.py: rows of orders for a number of users, up to a target. The random generator, the
-- products of floats and the time zone are parameters; the rate that is printed with the progress is left
-- out.
pub mod Constants
pub mod Decimal
pub mod Bounds
pub mod Plain
pub mod Every
pub mod Lines
pub mod Widths
use mysql_redshift_agent.Prelude.{
  ℕ, zero, suc, ◌+◌, ◌-◌, ◌*◌, ◌/◌, ◌^◌, Bool, true, false, ◌&&◌, not, List, [], ◌∷◌, ◌++◌, length,
  ltb, leb, ◌==◌, if◌then◌else◌,
}
use mysql_redshift_agent.Text.{Text, codes, join}
use mysql_redshift_agent.Gen.Constants.{
  processors, app_ids, countries, platforms, langs, price_points, versions, currencies, game_names,
  iap_products,
}
use mysql_redshift_agent.Gen.Decimal.{str_nat, event_time_of}

-- `random.Random`: `below n` is a number below `n`, from which `randint` and `choice` draw, and `unit` is
-- the number of 53 bits over which `random()` is that many 2 ^ -53. `amount` is the text of the rounded
-- product of a price and `uniform(1.0, 1.15)`, and `timestamp_ms` the timestamp of an offset in 2023.
pub record RandomSource : Type 1 where
  pub State : Type 0
  pub below : ℕ → State → ℕ × State
  pub unit : State → ℕ × State
  pub amount : Text → ℕ → Text
  pub timestamp_ms : ℕ → ℕ

-- The arguments of the command line.
pub record Args : Type 0 where
  pub uids : ℕ
  pub target_rows : ℕ
  pub progress_every : ℕ

-- What is drawn once for a user.
pub record User : Type 0 where
  pub uid : Text
  pub fpid : Text
  pub country : Text
  pub platform : Text
  pub lang : Text
  pub device_level : Text
  pub city_level : Text
  pub version : Text
  pub currency : Text
  pub is_white_user : Text
  pub game_name : Text
  pub app_id : Text
  pub gameserver_id : Text

-- `sequence[i]`
unfoldable pub item {ℓ} : {A : Type ℓ} → A → List A → ℕ → A
item default [] i = default
item default (x ∷ xs) zero = x
item default (x ∷ xs) (suc i) = item default xs i

-- The lines written, the numbers of rows at which progress was reported, and the number of rows.
pub record Output : Type 0 where
  pub lines : List Text
  pub reports : List ℕ
  pub rows : ℕ

-- The line of a row.
unfoldable pub line_of : List Text → Text
line_of fields = join (9 ∷ []) fields ++ 10 ∷ []

-- The number of orders that are written: the rest of the target at most.
unfoldable pub capped : ℕ → ℕ → ℕ → ℕ
capped target n order_count = if ltb target (n + order_count) then target - n else order_count

-- Whether a multiple of `progress_every` was passed.
unfoldable pub reports_at : ℕ → ℕ → ℕ → Bool
reports_at zero n order_count = false
reports_at (suc p) n order_count = not (n / suc p == (n - order_count) / suc p)

module _ (r : RandomSource) where
  abbrev pub Draw : Type 0 → Type 0
  Draw A = r.State → A × r.State

  infixl 5 ◌>>=◌
  abbrev pub ◌>>=◌ : {A B : Type 0} → Draw A → (A → Draw B) → Draw B
  ◌>>=◌ m f s = f (m s).0 (m s).1

  abbrev pub pure : {A : Type 0} → A → Draw A
  pure a s = (a, s)

  unfoldable pub randint : ℕ → ℕ → Draw ℕ
  randint a b s = let (k, s') = r.below (b - a + 1) s in (a + k, s')

  unfoldable pub choice : List Text → Draw Text
  choice xs s = let (i, s') = r.below (length xs) s in (item [] xs i, s')

  unfoldable pub choose_product : Draw (Text × Text × Text)
  choose_product s =
      let (i, s') = r.below (length iap_products) s in (item ([], [], []) iap_products i, s')

  -- `r < 0.80` and `r < 0.95`, by the numerators of these doubles over 2 ^ 53
  unfoldable pub pick_order_count : Draw ℕ
  pick_order_count s =
      let (x, s') = r.unit s in
      if ltb x 7205759403792794
      then randint 1 5 s'
      else if ltb x 8556839292003942
      then randint 10 50 s'
      else randint 100 500 s'

  -- `1 if rnd.random() < 0.05 else 0`; the double is 3602879701896397 over 2 ^ 56.
  unfoldable pub pick_white : Draw Text
  pick_white s =
      let (x, s') = r.unit s in
      ((if ltb (8 * x) 3602879701896397 then codes "1" else codes "0"), s')

  unfoldable pub number_between : ℕ → ℕ → Draw Text
  number_between a b s = let (k, s') = randint a b s in (str_nat k, s')

  unfoldable pub pick_user : ℕ → Draw User
  pick_user u_idx = do
    fpid ← number_between (10 ^ 12) (10 ^ 13 - 1)
    country ← choice countries
    platform ← choice platforms
    lang ← choice langs
    device_level ← number_between 1 5
    city_level ← number_between 1 7
    version ← choice versions
    currency ← choice currencies
    is_white_user ← pick_white
    game_name ← choice game_names
    app_id ← choice app_ids
    gameserver_id ← number_between 1 200
    pure (record {
      uid = str_nat (100_000_000 + u_idx);
      fpid = fpid;
      country = country;
      platform = platform;
      lang = lang;
      device_level = device_level;
      city_level = city_level;
      version = version;
      currency = currency;
      is_white_user = is_white_user;
      game_name = game_name;
      app_id = app_id;
      gameserver_id = gameserver_id;
    })

  -- The fields of one order, in the order of the columns.
  unfoldable pub pick_order : User → Draw (List Text)
  pick_order u = do
    base_price ← choice price_points
    x ← r.unit
    product ← choose_product
    processor ← choice processors
    offset ← randint 0 31_535_999
    tx_id ← number_between (10 ^ 15) (10 ^ 16 - 1)
    order_id ← number_between (10 ^ 25) (10 ^ 26 - 1)
    pure (
        u.game_name
        ∷ u.uid
        ∷ tx_id
        ∷ event_time_of offset
        ∷ u.fpid
        ∷ u.app_id
        ∷ u.platform
        ∷ u.country
        ∷ u.gameserver_id
        ∷ u.lang
        ∷ u.device_level
        ∷ u.city_level
        ∷ r.amount base_price x
        ∷ u.is_white_user
        ∷ u.app_id
        ∷ processor
        ∷ product.0
        ∷ product.1
        ∷ base_price
        ∷ product.2
        ∷ u.version
        ∷ u.currency
        ∷ order_id
        ∷ str_nat (r.timestamp_ms offset)
        ∷ [])

  -- The loop over the orders of a user.
  unfoldable pub write_orders : User → ℕ → Draw (List Text)
  write_orders u zero s = ([], s)
  write_orders u (suc n) s =
      let (fields, s') = pick_order u s in
      let (lines, s'') = write_orders u n s' in (line_of fields ∷ lines, s'')

  -- The loop over the users, with the number of those that are left and the number of rows so far.
  unfoldable pub write_users : Args → ℕ → ℕ → ℕ → r.State → Output
  write_users args zero u_idx n s = record { lines = []; reports = []; rows = n }
  write_users args (suc left) u_idx n s = elim (leb args.target_rows n) [
    | true ↦ record { lines = []; reports = []; rows = n }
    | false ↦
        let (user, s') = pick_user u_idx s in
        let (order_count, s'') = pick_order_count s' in
        let count = capped args.target_rows n order_count in
        let (lines, s''') = write_orders user count s'' in
        let rest = write_users args left (u_idx + 1) (n + count) s''' in
        record {
          lines = lines ++ rest.lines;
          reports =
              if reports_at args.progress_every (n + count) count
              then (n + count) ∷ rest.reports
              else rest.reports;
          rows = rest.rows;
        }
  ]

  -- `main`, from the state of the generator behind its seed
  unfoldable pub generate : Args → r.State → Output
  generate args s = write_users args args.uids 0 0 s

-- What is written to the standard output.
unfoldable pub printed : List Text → Text
printed [] = []
printed (line ∷ lines) = line ++ printed lines
