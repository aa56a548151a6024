-- ===== src/Gen/Lines.antt =====
-- What the rows hold: the written text is a file of tab-separated rows of 24 fields.
use mysql_redshift_agent.Prelude.{
  ℕ, suc, ◌*◌, ◌≡◌, refl, ap, ◌∙◌, true, some, List, [], ◌∷◌, map, length, All, arith, ltb, if_both,
}
use mysql_redshift_agent.Text.{Text, codes}
use mysql_redshift_agent.Csv.{tabs, written, write_fields, write_row, write_rows}
use mysql_redshift_agent.Csv.Reader.{is_control, has_control, read_csv}
use mysql_redshift_agent.Csv.Fields.{
  IsReadable, tabs-IsDialect, has_control-false, control-IsReadable,
}
use mysql_redshift_agent.Csv.RoundTrip.{read_csv-write_rows}
use mysql_redshift_agent.Gen.Constants.{
  processors, app_ids, countries, platforms, langs, price_points, versions, currencies, game_names,
  iap_products,
}
use mysql_redshift_agent.Gen.Decimal.{str_nat}
use mysql_redshift_agent.Gen.Every.{generate-All}
use mysql_redshift_agent.Gen.{
  RandomSource, Args, User, line_of, printed, choice, choose_product, number_between, pick_white,
  pick_user, pick_order, generate,
}
use mysql_redshift_agent.Gen.Plain.{
  IsPlain, digits_of-IsPlain, event_time_of-IsPlain, all_plain, all_plain-item, constants_plain,
  products_plain, all_plain-All, product_item,
}

infixr 4 ◌&◌
data AllPlain : List Text → Type 0 where
  done : AllPlain []
  ◌&◌ : {s : Text} {texts : List Text} → IsPlain s → AllPlain texts → AllPlain (s ∷ texts)

-- The order of a row: 24 fields that are written as they are.
abbrev IsOrder : List Text → Type 0
IsOrder fields = (length fields ≡ 24) × AllPlain fields

-- A written line with its row.
abbrev IsLine : Text → Type 0
IsLine line = (fields : List Text) × (line ≡ line_of fields) × IsOrder fields

-- Fields that are written as they are make the line that the writer of the format makes of them.
written-IsPlain : (s : Text) → IsPlain s → written tabs s ≡ s
unfolding written
written-IsPlain s h = rw (has_control-false tabs tabs-IsDialect s h) refl

map-written : {fields : List Text} → AllPlain fields → map (written tabs) fields ≡ fields
map-written done = refl
map-written (◌&◌ {s = s} h hs) = cc (written-IsPlain s h, map-written hs)

line_of-write_row : (fields : List Text) → IsOrder fields → line_of fields ≡ write_row tabs fields
unfolding line_of write_row write_fields
line_of-write_row [] h = absurd (omega arith)
line_of-write_row (s ∷ []) h = absurd (omega (arith, h.0))
line_of-write_row (s ∷ t ∷ fields) h = rw (map-written h.1) refl

AllPlain-IsReadable : {fields : List Text} → AllPlain fields → All (IsReadable tabs) fields
AllPlain-IsReadable done = tt
AllPlain-IsReadable (◌&◌ {s = s} h hs) =
    (control-IsReadable tabs tabs-IsDialect s h, AllPlain-IsReadable hs)

-- The text of such lines is the text that the writer makes of their rows.
lines_rows :
    (lines : List Text)
    → All IsLine lines
    → (orders : List (List Text)) × (printed lines ≡ write_rows tabs orders)
      × (length orders ≡ length lines)
      × All (λ fields. length fields ≡ 24) orders
      × All (All (IsReadable tabs)) orders
unfolding printed write_rows
lines_rows [] h = ([], refl, refl, tt, tt)
lines_rows (line ∷ lines) h =
    let ((fields, e, ok), rest) = h in
    let (orders, e', n, all, readable) = lines_rows lines rest in
    (
      fields ∷ orders,
      cc (e, line_of-write_row fields ok, e'),
      ap suc n,
      (ok.0, all),
      (AllPlain-IsReadable ok.1, readable),
    )

-- The fields of a user.
record IsPlainUser (u : User) : Type 0 where
  uid : IsPlain u.uid
  fpid : IsPlain u.fpid
  country : IsPlain u.country
  platform : IsPlain u.platform
  lang : IsPlain u.lang
  device_level : IsPlain u.device_level
  city_level : IsPlain u.city_level
  version : IsPlain u.version
  currency : IsPlain u.currency
  is_white_user : IsPlain u.is_white_user
  game_name : IsPlain u.game_name
  app_id : IsPlain u.app_id
  gameserver_id : IsPlain u.gameserver_id

module _ (r : RandomSource) (amounts : (price : Text) (x : ℕ) → IsPlain (r.amount price x)) where
  choice-IsPlain :
      (texts : List Text) (s : r.State) → all_plain texts ≡ true → IsPlain (choice r texts s).0
  unfolding choice
  choice-IsPlain texts s h = all_plain-item texts _ h

  number-IsPlain : (n : ℕ) → IsPlain (str_nat n)
  unfolding str_nat
  number-IsPlain n = digits_of-IsPlain _ n

  number_between-IsPlain : (a b : ℕ) (s : r.State) → IsPlain (number_between r a b s).0
  unfolding number_between
  number_between-IsPlain a b s = number-IsPlain _

  pick_white-IsPlain : (s : r.State) → IsPlain (pick_white r s).0
  unfolding pick_white has_control is_control
  pick_white-IsPlain s =
      if_both IsPlain (ltb (8 * (r.unit s).0) 3602879701896397) (codes "1") (codes "0") (λ _. refl)
        (λ _. refl)

  choose_product-IsPlain :
      (s : r.State)
      → All IsPlain
          ((choose_product r s).0.0 ∷ (choose_product r s).0.1 ∷ (choose_product r s).0.2 ∷ [])
  unfolding choose_product
  choose_product-IsPlain s = all_plain-All _ (product_item iap_products _ products_plain)

  pick_user-IsPlainUser : (u_idx : ℕ) (s : r.State) → IsPlainUser (pick_user r u_idx s).0
  unfolding pick_user
  pick_user-IsPlainUser u_idx s =
      let (p, a, c, f, l, pp, v, cu, g) = constants_plain in
      record {
        uid = number-IsPlain _;
        fpid = number_between-IsPlain _ _ _;
        country = choice-IsPlain countries _ c;
        platform = choice-IsPlain platforms _ f;
        lang = choice-IsPlain langs _ l;
        device_level = number_between-IsPlain _ _ _;
        city_level = number_between-IsPlain _ _ _;
        version = choice-IsPlain versions _ v;
        currency = choice-IsPlain currencies _ cu;
        is_white_user = pick_white-IsPlain _;
        game_name = choice-IsPlain game_names _ g;
        app_id = choice-IsPlain app_ids _ a;
        gameserver_id = number_between-IsPlain _ _ _;
      }

  pick_order-IsOrder : (u : User) (s : r.State) → IsPlainUser u → IsOrder (pick_order r u s).0
  unfolding pick_order
  pick_order-IsOrder u s h =
      let (p, a, c, f, l, pp, v, cu, g) = constants_plain in
      let product = choose_product-IsPlain (r.unit (choice r price_points s).1).1 in
      (
        refl,
        h.game_name
            & h.uid
            & number_between-IsPlain _ _ _
            & event_time_of-IsPlain _
            & h.fpid
            & h.app_id
            & h.platform
            & h.country
            & h.gameserver_id
            & h.lang
            & h.device_level
            & h.city_level
            & amounts _ _
            & h.is_white_user
            & h.app_id
            & choice-IsPlain processors _ p
            & product.0
            & product.1.0
            & choice-IsPlain price_points _ pp
            & product.1.1.0
            & h.version
            & h.currency
            & number_between-IsPlain _ _ _
            & number-IsPlain _
            & done,
      )

  -- With amounts that have no quote, tab or line break, the written text reads back as a table of
  -- tab-separated values with as many rows as there are lines, each of 24 fields.
  pub generate-read_csv :
      (args : Args) (s : r.State)
      → (orders : List (List Text)) × (read_csv 9 (printed (generate r args s).lines) ≡ some orders)
        × (length orders ≡ length (generate r args s).lines)
        × All (λ fields. length fields ≡ 24) orders
  generate-read_csv args s =
      let lines =
        generate-All r args IsLine IsPlainUser (λ u_idx s h. pick_user-IsPlainUser u_idx s)
          (λ u s h. (_, refl, pick_order-IsOrder u s h)) s in
      let (orders, e, n, all, readable) = lines_rows (generate r args s).lines lines in
      (orders, ap (read_csv 9) e ∙ read_csv-write_rows tabs tabs-IsDialect orders readable, n, all)
