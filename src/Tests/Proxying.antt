-- ===== src/Tests/Proxying.antt =====
-- Runs of the proxy: the keys of statements, routes, retries and a session, and the theorems at them.
use mathlib.Core.Path.{subst}
use mysql_redshift_agent.Prelude.{
  sym, ℕ, ◌+◌, ◌<◌, ◌≡◌, ◌≢◌, ◌↔◌, refl, false, Option, none, some, List, [], ◌∷◌, ◌++◌, ◌||◌, All,
  if◌then◌else◌, arith,
}
use mysql_redshift_agent.Text.{Text, codes, starts_with, text_eq, rstrip_by}
use mysql_redshift_agent.Value.{pos}
use mysql_redshift_agent.Proxy.GoText.{
  Unicode, is_empty, is_space, trim_space, trim_semicolons, to_lower, split_commas,
}
use mysql_redshift_agent.Proxy.Config.{Config, Env, from_env, getenv, must_env, must_atoi, atoi}
use mysql_redshift_agent.Proxy.Router.{mysql, Parsed, tables, first_unlisted, route, new_router}
use mysql_redshift_agent.Proxy.Normalize.{key}
use mysql_redshift_agent.Proxy.Values.{Types, string, Result, resultset, built, to_mysql}
use mysql_redshift_agent.Proxy.Client.{
  TranslateRequest, TranslateResponse, Executed, done, failed, answered, decoded, Outside,
}
use mysql_redshift_agent.Proxy.Server.{
  won, rounds, Setup, State, result, fix_request, exec_with_retry, handle_query, should_noop,
}
use mysql_redshift_agent.Proxy.Client.{translate}
use mysql_redshift_agent.Proxy.Retry.{Ends, exec_with_retry-Ends}
use mysql_redshift_agent.Proxy.Routes.{NeedsMysql, route-mysql_iff}
use mysql_redshift_agent.Proxy.Literals.{key-number}
use mysql_redshift_agent.Proxy.Config.{config_of}
use mysql_redshift_agent.Proxy.Normalize.{quote, is_digit}
use mysql_redshift_agent.Proxy.Start.{Pings, serving, setup_of, start}
use mysql_redshift_agent.Proxy.Started.{start-unconfigured}
use mysql_redshift_agent.Proxy.Server.{error, mysql_not_configured, first_request, answer_of}
use mysql_redshift_agent.Service.Translate.{text_or_empty}
use mysql_redshift_agent.Proxy.Cached.{IsKept}
use mysql_redshift_agent.Proxy.Repeated.{IsRedirected, Gave, cached_sql, repeated_query}
use mysql_redshift_agent.Proxy.Cache.{cache_get, cache_set}
use mysql_redshift_agent.Tests.LruMap.{lru, find, remove}

abbrev pub ascii : Unicode
ascii = record { to_lower = λ c. c }

abbrev pub as_is : Text → Text
as_is s = s

key_of_literals :
    key as_is ascii (codes " SELECT *  FROM t WHERE a = 'it''s' AND b = 1.5 AND c1 = 20;")
    ≡ codes "select * from t where a = ? and b = ? and c1 = ?"
unfolding key trim_space trim_semicolons to_lower rstrip_by is_space
key_of_literals = refl

key_of_names :
    key as_is ascii (codes "select 1.x, 1.2.3, 'open from t1")
    ≡ codes "select ?.x, ?.?, 'open from t1"
unfolding key trim_space trim_semicolons to_lower rstrip_by is_space
key_of_names = refl

atoi_signed : atoi (codes "-12") ≡ some (mysql_redshift_agent.Value.negsuc 11)
unfolding atoi
atoi_signed = refl

abbrev pub plain : Types
plain = record {
  Time = Text;
  Float32 = Text;
  Float64 = Text;
  Other = Text;
  format_time = λ s. s;
  format_float32 = λ s. s;
  format_float64 = λ s. s;
  sprint = λ s. s;
  Resultset = List (List (Option Text));
}

abbrev pub row_of : Text → Result plain
row_of sql = record { columns = codes "q" ∷ []; rows = (string sql ∷ []) ∷ [] }

-- Redshift answers with the statement itself, and fails at one that begins with "bad"; the agent answers at
-- first with "bad" before the statement and then with the statement. The world counts the agent's answers.
abbrev pub run_sql : Text → ℕ → Executed plain × ℕ
run_sql sql w = (
  if starts_with (codes "bad") sql then failed (codes "syntax error") else done (row_of sql) 7,
  w,
)

abbrev pub translation : TranslateRequest → Text
translation req = if is_empty req.prev_error then codes "bad " ++ req.sql else req.sql

abbrev pub response : Text → TranslateResponse
response sql = record {
  redshift_sql = sql;
  used_rules = [];
  latency_ms = pos 3;
  attempt = codes "initial";
}

abbrev pub outside : Outside plain
outside = record {
  World = ℕ;
  redshift = run_sql;
  mysql = run_sql;
  post = λ req w. (answered 200 (translation req), w + 1);
  decode = λ body. decoded (response body);
  save = λ req w. w;
  build = λ columns rows. built rows;
}

abbrev pub one : Text
one = codes "select * from t where id = 1"

abbrev pub two : Text
two = codes "select * from t where id = 2"

-- A fix behind the first failure
retried :
    exec_with_retry plain outside (pos 3) one (codes "bad " ++ one) 1 ≡ (won (row_of one) one 7, 2)
unfolding exec_with_retry starts_with translate fix_request is_empty
retried = refl

exec_with_retry-Ends_example :
    Ends plain outside one
      (rounds (pos 3))
      (codes "bad " ++ one)
      1
      (exec_with_retry plain outside (pos 3) one (codes "bad " ++ one) 1)
exec_with_retry-Ends_example =
    exec_with_retry-Ends plain outside one (pos 3) (codes "bad " ++ one) 1

abbrev pub parse_t : Text → Parsed
parse_t sql = tables (codes "t" ∷ codes "orders" ∷ [])

abbrev pub listed : Text
listed = codes " Orders, users"

route-mysql_iff_example :
    ((route parse_t (new_router ascii listed) one).destination ≡ mysql)
    ↔ NeedsMysql ascii parse_t listed one
route-mysql_iff_example = route-mysql_iff ascii parse_t listed one

unquoted : All (λ x. x ≢ quote) (to_lower ascii (b's' ∷ codes "elect * from t where id ="))
unfolding to_lower
unquoted = omega arith

key-number_example :
    key as_is ascii (codes "select * from t where id =" ++ 32 ∷ b'1' ∷ [])
    ≡ key as_is ascii (codes "select * from t where id =" ++ 32 ∷ b'2' ∷ b'0' ∷ [])
key-number_example =
    key-number ascii b's' (codes "elect * from t where id =") (unfold is_space in refl) unquoted
      as_is b'1' b'2' [] (b'0' ∷ []) (unfold is_digit in (refl, tt))
      (unfold is_digit in (refl, (refl, tt)))

abbrev pub environment : Env
environment k =
    if text_eq k (codes "PROXY_MYSQL_PASSWORD") || text_eq k (codes "REDSHIFT_DSN")
    then codes "x"
    else if text_eq k (codes "TABLE_WHITELIST")
    then listed
    else []

abbrev no_errors : Pings
no_errors = record { redshift = none; mysql = none }

abbrev pub config : Config
config = config_of environment (codes "x") (codes "x") (pos 1024) (pos 3)

abbrev pub setup : Setup
setup = setup_of ascii config

abbrev pub fresh : State plain outside lru
fresh = record { cache = record { inner = (1023, []); hit = 0; miss = 0 }; queue = []; world = 0 }

started : start plain outside lru ascii no_errors 0 environment ≡ serving setup fresh
unfolding start from_env must_env must_atoi getenv atoi is_empty text_eq
started = refl

routed : (route parse_t (new_router ascii listed) one).destination ≡ mysql
unfolding route new_router split_commas to_lower trim_space rstrip_by is_space is_empty text_eq
    first_unlisted
routed = refl

whitelist : environment (codes "TABLE_WHITELIST") ≡ listed
unfolding text_eq
whitelist = refl

needs : NeedsMysql ascii parse_t (environment (codes "TABLE_WHITELIST")) one
needs =
    subst (λ w. NeedsMysql ascii parse_t w one) (sym whitelist)
      ((route-mysql_iff ascii parse_t listed one).0 routed)

unset : environment (codes "MYSQL_DSN") ≡ []
unfolding text_eq
unset = refl

read_one : should_noop ascii one ≡ false
unfolding should_noop to_lower trim_space rstrip_by is_space starts_with
read_one = refl

start-unconfigured_example :
    handle_query plain outside lru ascii as_is parse_t setup one fresh
    ≡ (error (mysql_not_configured (route parse_t setup.router one).referenced), fresh)
start-unconfigured_example =
    start-unconfigured plain outside lru ascii as_is no_errors 0 parse_t environment setup fresh
      fresh one started unset read_one needs

-- A proxy with no list, which sends all to Redshift
abbrev pub open_setup : Setup
open_setup = record setup { router = record { whitelist = [] } }

pub fresh-IsKept : IsKept plain outside lru ascii as_is fresh
fresh-IsKept = record {
  origins = λ k v e. absurd (unfold find in cc e);
  bounded = omega arith;
  samples = tt;
}

abbrev after : Text → State plain outside lru → State plain outside lru
after q s = (handle_query plain outside lru ascii as_is parse_t open_setup q s).1

redirected :
    (q : Text)
    → should_noop ascii q ≡ false
    → IsRedirected plain outside lru ascii as_is parse_t open_setup q
redirected q h = record { read = h; routed = unfold route in refl }

-- What the second of two statements with one key meets
abbrev met : State plain outside lru
met = record (after one fresh) { world = 5 }

answered_one :
    (handle_query plain outside lru ascii as_is parse_t open_setup one fresh).0
    ≡ result (resultset ((some one ∷ []) ∷ []))
unfolding handle_query exec_with_retry should_noop starts_with to_lower trim_space rstrip_by
    is_space route setup_of is_empty cache_get find translate config_of first_request fix_request
    key trim_semicolons text_eq cache_set to_mysql
answered_one = refl

cached_one :
    outside.redshift (cached_sql plain outside lru ascii as_is parse_t open_setup two met) 5
    ≡ (done (row_of one) 7, 5)
unfolding handle_query exec_with_retry should_noop starts_with to_lower trim_space rstrip_by
    is_space route setup_of is_empty cache_get find translate config_of first_request fix_request
    key trim_semicolons text_eq cache_set remove text_or_empty
cached_one = refl

one_key : key as_is ascii one ≡ key as_is ascii two
unfolding key to_lower trim_space rstrip_by is_space trim_semicolons
one_key = refl

three_rounds : 0 < rounds open_setup.cfg.max_attempts
unfolding rounds setup_of config_of
three_rounds = omega arith

read_two : should_noop ascii two ≡ false
unfolding should_noop to_lower trim_space rstrip_by is_space starts_with
read_two = refl

-- The statement for id = 2 is answered with the row of the statement for id = 1.
repeated_query_example :
    Gave plain outside lru ascii as_is parse_t open_setup
      (cached_sql plain outside lru ascii as_is parse_t open_setup two met)
      (resultset ((some one ∷ []) ∷ []))
    × ((handle_query plain outside lru ascii as_is parse_t open_setup two met).0
        ≡ answer_of plain outside lru ascii as_is parse_t open_setup (row_of one))
    × ((handle_query plain outside lru ascii as_is parse_t open_setup two met).1.world ≡ 5)
repeated_query_example =
    repeated_query plain outside lru ascii as_is parse_t open_setup one two fresh
      (resultset ((some one ∷ []) ∷ [])) 5 5 (row_of one) 7 (redirected one read_one)
      (redirected two read_two) one_key three_rounds answered_one cached_one
