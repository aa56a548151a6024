-- ===== src/Gen/Constants.antt =====
-- scripts/gen_50m.py: the constants from which an order is drawn.
use mysql_redshift_agent.Prelude.{List, [], ◌∷◌}
use mysql_redshift_agent.Text.{Text, codes}

abbrev pub processors : List Text
processors =
    codes "googleplay"
    ∷ codes "applepay"
    ∷ codes "mc_googleplayiap"
    ∷ codes "mc_applepayiap"
    ∷ codes "centurygames_pay"
    ∷ codes "centurygames_store"
    ∷ codes "kg3rdpartypayment"
    ∷ []

abbrev pub app_ids : List Text
app_ids =
    codes "1"
    ∷ codes "2"
    ∷ codes "alpha.alpha_01.p"
    ∷ codes "alpha.global.pro"
    ∷ codes "beta.global"
    ∷ []

abbrev pub countries : List Text
countries =
    codes "US"
    ∷ codes "JP"
    ∷ codes "KR"
    ∷ codes "CN"
    ∷ codes "DE"
    ∷ codes "FR"
    ∷ codes "BR"
    ∷ codes "RU"
    ∷ codes "IN"
    ∷ codes "ID"
    ∷ codes "TH"
    ∷ codes "VN"
    ∷ []

abbrev pub platforms : List Text
platforms = codes "android" ∷ codes "ios" ∷ []

abbrev pub langs : List Text
langs =
    codes "en"
    ∷ codes "ja"
    ∷ codes "ko"
    ∷ codes "zh"
    ∷ codes "de"
    ∷ codes "fr"
    ∷ codes "pt"
    ∷ codes "ru"
    ∷ []

abbrev pub price_points : List Text
price_points =
    codes "0.99"
    ∷ codes "1.99"
    ∷ codes "2.99"
    ∷ codes "4.99"
    ∷ codes "9.99"
    ∷ codes "19.99"
    ∷ codes "49.99"
    ∷ codes "99.99"
    ∷ []

abbrev pub versions : List Text
versions =
    codes "100.120.0"
    ∷ codes "100.121.0"
    ∷ codes "100.122.0"
    ∷ codes "100.123.0"
    ∷ codes "100.124.0"
    ∷ []

abbrev pub currencies : List Text
currencies = codes "USD" ∷ codes "EUR" ∷ codes "JPY" ∷ codes "KRW" ∷ codes "CNY" ∷ []

abbrev pub game_names : List Text
game_names = codes "thor" ∷ codes "asgard" ∷ codes "valhalla" ∷ []

-- The id, the name and the Chinese name of a product.
abbrev pub iap_products : List (Text × Text × Text)
iap_products =
    (codes "weekly_pass_001", codes "Weekly Pass", codes "周卡")
    ∷ (codes "monthly_pass_001", codes "Monthly Pass", codes "月卡")
    ∷ (codes "gem_pack_s", codes "Gem Pack S", codes "小宝石包")
    ∷ (codes "gem_pack_m", codes "Gem Pack M", codes "中宝石包")
    ∷ (codes "gem_pack_l", codes "Gem Pack L", codes "大宝石包")
    ∷ (codes "gem_pack_xl", codes "Gem Pack XL", codes "豪华宝石包")
    ∷ (codes "starter_pack", codes "Starter Pack", codes "新手礼包")
    ∷ (codes "vip_pack_1", codes "VIP Pack 1", codes "VIP礼包1")
    ∷ (codes "vip_pack_2", codes "VIP Pack 2", codes "VIP礼包2")
    ∷ (codes "special_offer", codes "Special Offer", codes "特惠礼包")
    ∷ []
