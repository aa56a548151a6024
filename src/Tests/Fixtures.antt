-- ===== src/Tests/Fixtures.antt =====
-- Parameters that meet what the theorems assume of them, and small data.
use mathlib.Core.List.Permᴰ
use mysql_redshift_agent.Prelude.{
  ℕ, zero, suc, true, false, none, some, List, [], ◌∷◌, length, take, length-take, All, Elem, inl,
  inr, arith, refl, ◌==◌, leb, ltb, if◌then◌else◌,
}
use mysql_redshift_agent.Text.{Text, Unicode, codes}
use mysql_redshift_agent.Rules.{Directory}
use mysql_redshift_agent.Value.{pos, negsuc, Runtime}
use mysql_redshift_agent.Knowledge.Table.{Entry, Table, Backend}
use mysql_redshift_agent.Knowledge.Store.{Config, Faults}
use mysql_redshift_agent.Knowledge.Retrieval.{SelectsRows}
use mysql_redshift_agent.Knowledge.Admin.{Orders}

-- No characters beyond ASCII.
abbrev pub ascii : Unicode
ascii = record {
  is_alnum = λ c. false;
  is_decimal = λ c. false;
  lower_of = λ before c after. c ∷ [];
  upper_of = λ c. c ∷ [];
}

-- Floats as numbers of hundredths that are close if they are equal.
abbrev pub hundredths : Runtime
hundredths = record {
  Float = ℕ;
  Decimal = ℕ;
  Moment = Text;
  Object = Text;
  float_of_int = elim [ pos n ↦ some n | negsuc n ↦ none ];
  float_of_decimal = λ d. d;
  is_close = λ x y. x == y;
  number_eq = λ a b. false;
  isoformat = λ m. m;
  decode = λ b. b;
  str_of_int = elim [ pos n ↦ n ∷ [] | negsuc n ↦ 45 ∷ n ∷ [] ];
  str_of_float = λ x. x ∷ 46 ∷ [];
  str_of_object = λ o. o;
  str_error = λ o. none;
  object_eq = λ a b. false;
}

-- Statements of one length are embedded alike; the nearest rows are the first ones.
abbrev pub by_length : Backend
by_length = record {
  Vector = ℕ;
  Score = ℕ;
  below = ltb;
  at_least = λ a b. leb b a;
  similarity = λ a b. if a == b then 100 else 50;
  show_score = λ s. s ∷ [];
  show_nat = λ n. n ∷ [];
  md5 = λ s. s;
  embed_query = length;
  embed_document = length;
  nearest = λ v k rows. take k rows;
  latest_first = λ rows. rows;
  ilike = λ p s. true;
}

take-from :
    {A : Type 0} (k : ℕ) (xs ys : List A)
    → All (λ x. Elem x ys) xs
    → All (λ x. Elem x ys) (take k xs)
take-from zero xs ys h = tt
take-from (suc k) [] ys h = tt
take-from (suc k) (x ∷ xs) ys h = (h.0, take-from k xs ys h.1)

further :
    {A : Type 0} (y : A) (xs ys : List A) → All (λ x. Elem x ys) xs → All (λ x. Elem x (y ∷ ys)) xs
further y [] ys h = tt
further y (x ∷ xs) ys h = (inr h.0, further y xs ys h.1)

All-Elem_refl : {A : Type 0} (xs : List A) → All (λ x. Elem x xs) xs
All-Elem_refl [] = tt
All-Elem_refl (x ∷ xs) = (inl refl, further x xs xs (All-Elem_refl xs))

pub by_length-SelectsRows : SelectsRows by_length
by_length-SelectsRows = record {
  at_most = λ v k rows. omega (arith, length-take k rows);
  from_table = λ v k rows. take-from k rows rows (All-Elem_refl rows);
}

pub by_length-Orders : Orders by_length
by_length-Orders = record { perm = λ rows. Permᴰ.refl rows }

abbrev pub config : Config ℕ
config = record {
  host = codes "pg";
  password = codes "secret";
  top_k = 3;
  threshold = 85;
  dedup_threshold = 94;
}

abbrev pub never : Faults
never = λ step. false

abbrev pub mysql_count : Text
mysql_count = codes "SELECT COUNT(*) AS total FROM dw.orders"

abbrev pub redshift_count : Text
redshift_count = codes "SELECT COUNT(*) AS total FROM orders"

-- One row, saved by the seed script.
abbrev pub seeded_row : Entry ℕ
seeded_row = record {
  id = 1;
  mysql_sql = mysql_count;
  redshift_sql = redshift_count;
  embedding = length mysql_count;
  used_rules = [];
  row_count = none;
  mysql_ms = none;
  redshift_ms = none;
  compare_mode = codes "skipped";
  source = codes "seed";
  hit_count = 0;
  created_at = 5;
  last_used_at = 5;
}

abbrev pub seeded : Table ℕ
seeded = record { rows = seeded_row ∷ []; next_id = 2 }

abbrev pub documents : Directory
documents = (codes "schema_prefix.md", codes "# Schema prefix") ∷ []
