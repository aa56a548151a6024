-- ===== src/Tests/Scripts.antt =====
-- A seeding with two samples, a migration of two small tables and an export of a sheet, and the theorems
-- on them.
use mysql_redshift_agent.Prelude.{
  ℕ, ◌≡◌, refl, ap, inl, inr, true, Option, none, some, List, [], ◌∷◌, map, length, Elem, All,
  AllDistinct, arith,
}
use mysql_redshift_agent.Text.{Text, codes}
use mysql_redshift_agent.Value.{Value}
use mysql_redshift_agent.Delivery.{answered}
use mysql_redshift_agent.Knowledge.Store.{is_empty, is_enabled}
use mysql_redshift_agent.Knowledge.View.{translation_of}
use mysql_redshift_agent.Seed.{Sample, Post, seed_main}
use mysql_redshift_agent.Seed.Known.{seed_main-known, seed_main-ok}
use mysql_redshift_agent.Csv.Reader.{CsvTable, read_csv}
use mysql_redshift_agent.Migrate.{DictRows, Loaded, World, Run}
use mysql_redshift_agent.Migrate.Loaded.{null_if_blank}
use mysql_redshift_agent.Migrate.Values.{dict_cursor}
use mysql_redshift_agent.Tests.Fixtures.{
  ascii, hundredths, by_length, config, never, mysql_count, redshift_count, seeded,
}

abbrev two_samples : List Sample
two_samples =
    (record { mysql = mysql_count; redshift = redshift_count; rules = [] })
    ∷ (record { mysql = codes "SELECT 1"; redshift = codes "SELECT 1"; rules = [] })
    ∷ []

abbrev posts : ℕ → Post
posts i = record { delivery = answered; now = i; fails = never }

apart_samples : AllDistinct (map (λ s. by_length.md5 s.mysql) two_samples)
apart_samples = (
  elim [ inl e ↦ absurd (omega (arith, ap length e)) | inr m ↦ absurd m.lower ],
  ((λ m. absurd m.lower), tt),
)

seed_main-known_example :
    ((seed_main by_length ascii config posts two_samples seeded).0 ≡ 0
      → All
          (λ s.
            translation_of by_length s.mysql
              (seed_main by_length ascii config posts two_samples seeded).1.rows
            ≡ some s.redshift)
          two_samples)
    × ((sql : Text)
        → ¬ Elem sql (map (λ s. s.mysql) two_samples)
        → translation_of by_length sql
            (seed_main by_length ascii config posts two_samples seeded).1.rows
          ≡ translation_of by_length sql seeded.rows)
seed_main-known_example =
    seed_main-known by_length ascii config posts two_samples seeded apart_samples

seed_main-ok_example : (seed_main by_length ascii config posts two_samples seeded).0 ≡ 0
unfolding is_enabled is_empty
seed_main-ok_example =
    seed_main-ok by_length ascii config posts refl (λ i. refl) (λ i step. refl) two_samples seeded

-- A table of one row, with a blank second field.
abbrev mysql_rows : List (List (Value hundredths))
mysql_rows = (Value.str (codes "7,\"8") ∷ Value.null ∷ []) ∷ []

abbrev cursor : DictRows hundredths
cursor = dict_cursor (codes "uid" ∷ codes "note" ∷ []) mysql_rows

abbrev cell_text : Value hundredths → Text
cell_text (Value.str s) = s
cell_text v = codes "?"

-- COPY with IGNOREHEADER 1 and EMPTYASNULL.
abbrev copied_rows : Option CsvTable → Option (List Loaded)
copied_rows none = none
copied_rows (some []) = some []
copied_rows (some (header ∷ rows)) = some (map (map null_if_blank) rows)

-- COPY of the object under the bucket and the key.
abbrev copied_object : Option Text → Option (List Loaded)
copied_object none = none
copied_object (some content) = copied_rows (read_csv b',' content)

abbrev run : Run hundredths
run = record {
  selected = some cursor;
  bucket = codes "b";
  key = codes "k";
  iam_role = codes "arn";
  frozen = none;
  region = codes "us-east-1";
  uploads = true;
  truncates = true;
  loads = λ sql s3. copied_object (s3 (codes "b") (codes "k"));
  commits = true;
  counts = true;
}

abbrev orders : Text
orders = codes "orders"

abbrev users : Text
users = codes "users"

abbrev world : World
world = record { s3 = λ b k. none; tables = λ t. (some t ∷ []) ∷ [] }

abbrev header : List (Value hundredths)
header = Value.str (codes "uid") ∷ Value.str (codes "note") ∷ []

abbrev sheet_rows : List (List (Value hundredths))
sheet_rows = (Value.str (codes "a'b") ∷ Value.null ∷ []) ∷ []
