-- ===== src/Proxy/Config.antt =====
-- `config.FromEnv` of proxy/internal/config/config.go, with the `strconv.Atoi` that it calls.
use mysql_redshift_agent.Prelude.{
  ℕ, zero, suc, ◌+◌, ◌-◌, ◌*◌, ◌^◌, ◌&&◌, Option, none, some, [], ◌∷◌, ltb, leb, ◌==◌,
  if◌then◌else◌,
}
use mysql_redshift_agent.Text.{Text, codes}
use mysql_redshift_agent.Value.{ℤ, pos, negsuc}
use mysql_redshift_agent.Proxy.GoText.{is_empty}

pub record Config : Type 0 where
  pub listen_addr : Text
  pub mysql_user : Text
  pub mysql_password : Text
  pub mysql_db_name : Text
  pub redshift_dsn : Text
  pub mysql_dsn : Text
  pub table_whitelist : Text
  pub agent_url : Text
  pub cache_size : ℤ
  pub max_attempts : ℤ

-- A value, or a panic: a variable that is missing, or one that is no number.
pub data Loaded (A : Type 0) : Type 0 where
  loaded : A → Loaded A
  missing : Text → Loaded A
  invalid : Text → Loaded A

infixl 5 ◌>>=◌
abbrev pub ◌>>=◌ : {A B : Type 0} → Loaded A → (A → Loaded B) → Loaded B
loaded a >>= f = f a
missing k >>= f = missing k
invalid s >>= f = invalid s

-- `os.Getenv`, with "" for a variable that is not set
abbrev pub Env : Type 0
Env = Text → Text

unfoldable pub getenv : Env → Text → Text → Text
getenv env k d = if is_empty (env k) then d else env k

unfoldable pub must_env : Env → Text → Loaded Text
must_env env k = if is_empty (env k) then missing k else loaded (env k)

-- The value of the decimal digits; `none` is another character.
unfoldable pub digits_value : ℕ → Text → Option ℕ
digits_value acc [] = some acc
digits_value acc (c ∷ s) =
    let rest = digits_value (acc * 10 + (c - b'0')) s in
    if leb b'0' c && leb c b'9' then rest else none

unfoldable pub magnitude : Text → Option ℕ
unfolding digits_value
magnitude [] = none
magnitude (c ∷ s) = digits_value 0 (c ∷ s)

negated : ℕ → ℤ
negated zero = pos 0
negated (suc n) = negsuc n

-- `strconv.Atoi` on a 64-bit machine; `none` is an error
unfoldable pub atoi : Text → Option ℤ
unfolding magnitude negated
atoi [] = none
atoi (c ∷ s) =
    if c == b'-'
    then elim (magnitude s) [
      | none ↦ none
      | some n ↦ if leb n (2 ^ 63) then some (negated n) else none
    ]
    else elim (magnitude (if c == b'+' then s else c ∷ s)) [
      | none ↦ none
      | some n ↦ if ltb n (2 ^ 63) then some (pos n) else none
    ]

unfoldable pub must_atoi : Text → Loaded ℤ
must_atoi s = elim (atoi s) [ none ↦ invalid s | some n ↦ loaded n ]

unfoldable pub config_of : Env → Text → Text → ℤ → ℤ → Config
config_of env password dsn cache_size max_attempts = record {
  listen_addr = getenv env (codes "PROXY_LISTEN") (codes ":3306");
  mysql_user = getenv env (codes "PROXY_MYSQL_USER") (codes "demo");
  mysql_password = password;
  mysql_db_name = getenv env (codes "PROXY_MYSQL_DB") (codes "dw");
  redshift_dsn = dsn;
  mysql_dsn = getenv env (codes "MYSQL_DSN") [];
  table_whitelist = getenv env (codes "TABLE_WHITELIST") [];
  agent_url = getenv env (codes "AGENT_URL") (codes "http://localhost:8088");
  cache_size = cache_size;
  max_attempts = max_attempts;
}

-- The fields that may panic, in the order of the literal
unfoldable pub from_env : Env → Loaded Config
unfolding config_of
from_env env = do
  password ← must_env env (codes "PROXY_MYSQL_PASSWORD")
  dsn ← must_env env (codes "REDSHIFT_DSN")
  cache_size ← must_atoi (getenv env (codes "CACHE_SIZE") (codes "1024"))
  max_attempts ← must_atoi (getenv env (codes "MAX_ATTEMPTS") (codes "3"))
  loaded (config_of env password dsn cache_size max_attempts)

abbrev stars : Text
stars = codes "****"

-- What is logged at the start
unfoldable pub redacted : Config → Config
redacted c = record c { mysql_password = stars; redshift_dsn = stars }
