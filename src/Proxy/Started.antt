-- ===== src/Proxy/Started.antt =====
-- The proxy right after its start, and with no database for the statements that it sends to MySQL.
use mathlib.Core.Path.{subst}
use mysql_redshift_agent.Value.{ℤ}
use mysql_redshift_agent.Prelude.{
  ◌≡◌, refl, sym, ap, ◌∙◌, Bool, true, false, not, Option, none, some, [], ◌∷◌, if◌then◌else◌,
  arith,
}
use mysql_redshift_agent.Text.{Text, codes}
use mysql_redshift_agent.Proxy.GoText.{Unicode, is_empty}
use mysql_redshift_agent.Proxy.Config.{
  Env, Config, Loaded, loaded, missing, invalid, ◌>>=◌, config_of, from_env, getenv, must_env,
  must_atoi,
}
use mysql_redshift_agent.Proxy.Router.{Parsed, mysql, route, new_router}
use mysql_redshift_agent.Proxy.Cache.{Lru}
use mysql_redshift_agent.Proxy.Values.{Types}
use mysql_redshift_agent.Proxy.Client.{Outside}
use mysql_redshift_agent.Proxy.Routes.{NeedsMysql, route-mysql_iff}
use mysql_redshift_agent.Proxy.Cached.{IsKept}
use mysql_redshift_agent.Proxy.Server.{
  error, mysql_not_configured, Setup, State, should_noop, on_mysql, dispatch, handle_query,
}
use mysql_redshift_agent.Proxy.Start.{
  Pings, serving, setup_of, new_server, connect_mysql, connect, configured, start,
}

-- A variable with "" for its default has the value that is set.
getenv_plain : (env : Env) (k : Text) → getenv env k [] ≡ env k
unfolding getenv
getenv_plain env k = plain (env k)
  where
    plain : (v : Text) → (if is_empty v then [] else v) ≡ v
    plain [] = unfold is_empty in refl
    plain (c ∷ v) = unfold is_empty in refl

-- A configuration is made of the four values that were read.
made :
    (env : Env) (a b : Loaded Text) (c d : Loaded ℤ) (cfg : Config)
    → (do
      password ← a
      dsn ← b
      size ← c
      attempts ← d
      loaded (config_of env password dsn size attempts))
      ≡ loaded cfg
    → (cfg.mysql_dsn ≡ getenv env (codes "MYSQL_DSN") [])
      × (cfg.table_whitelist ≡ getenv env (codes "TABLE_WHITELIST") [])
unfolding config_of
made env (missing k) b c d cfg h = absurd (cc)
made env (invalid s) b c d cfg h = absurd (cc)
made env (loaded p) (missing k) c d cfg h = absurd (cc)
made env (loaded p) (invalid s) c d cfg h = absurd (cc)
made env (loaded p) (loaded q) (missing k) d cfg h = absurd (cc)
made env (loaded p) (loaded q) (invalid s) d cfg h = absurd (cc)
made env (loaded p) (loaded q) (loaded n) (missing k) cfg h = absurd (cc)
made env (loaded p) (loaded q) (loaded n) (invalid s) cfg h = absurd (cc)
made env (loaded p) (loaded q) (loaded n) (loaded m) cfg h =
    let e : config_of env p q n m ≡ cfg = cc in
    (ap (λ c. c.mysql_dsn) (sym e), ap (λ c. c.table_whitelist) (sym e))

from_env-fields :
    (env : Env) (cfg : Config)
    → from_env env ≡ loaded cfg
    → (cfg.mysql_dsn ≡ env (codes "MYSQL_DSN"))
      × (cfg.table_whitelist ≡ env (codes "TABLE_WHITELIST"))
unfolding from_env
from_env-fields env cfg h =
    let (dsn, whitelist) =
      made env (must_env env (codes "PROXY_MYSQL_PASSWORD")) (must_env env (codes "REDSHIFT_DSN"))
        (must_atoi (getenv env (codes "CACHE_SIZE") (codes "1024")))
        (must_atoi (getenv env (codes "MAX_ATTEMPTS") (codes "3"))) cfg h in
    (
      dsn ∙ getenv_plain env (codes "MYSQL_DSN"),
      whitelist ∙ getenv_plain env (codes "TABLE_WHITELIST"),
    )

module _ (t : Types) (o : Outside t) (l : Lru) (u : Unicode) (digest : Text → Text) (pings : Pings)
    (w : o.World) where
  -- A proxy that serves has the setup of its configuration and an empty state.
  pub record IsFresh (cfg : Config) (setup : Setup) (s : State t o l) : Type 0 where
    pub as_configured : setup ≡ setup_of u cfg
    pub kept : IsKept t o l u digest s
    pub world : s.world ≡ w

  new-IsFresh :
      (cfg : Config) (inner : Option l.Store) (setup : Setup) (s : State t o l)
      → l.new cfg.cache_size ≡ inner
      → new_server t o l u pings w cfg inner ≡ serving setup s
      → IsFresh cfg setup s
  unfolding new_server
  new-IsFresh cfg none setup s e h = absurd (cc)
  new-IsFresh cfg (some inner) setup s e h =
      let same_setup : setup_of u cfg ≡ setup = cc in
      let same_state : record {
        cache = record { inner = inner; hit = 0; miss = 0 };
        queue = [];
        world = w;
      }
          ≡ s =
        cc in
      record {
        as_configured = sym same_setup;
        kept = subst (IsKept t o l u digest) same_state (record {
          origins = λ k v q. absurd (cc (l.get_new cfg.cache_size k inner e, q));
          bounded = omega arith;
          samples = tt;
        });
        world = ap (λ x. x.world) (sym same_state);
      }

  mysql-IsFresh :
      (cfg : Config) (off : Bool) (ping : Option Text) (setup : Setup) (s : State t o l)
      → connect_mysql t o l u pings w cfg off ping ≡ serving setup s
      → IsFresh cfg setup s
  unfolding connect_mysql
  mysql-IsFresh cfg false (some e) setup s h = absurd (cc)
  mysql-IsFresh cfg false none setup s h = new-IsFresh cfg _ setup s refl h
  mysql-IsFresh cfg true ping setup s h = new-IsFresh cfg _ setup s refl h

  connect-IsFresh :
      (cfg : Config) (ping : Option Text) (setup : Setup) (s : State t o l)
      → connect t o l u pings w cfg ping ≡ serving setup s
      → IsFresh cfg setup s
  unfolding connect
  connect-IsFresh cfg (some e) setup s h = absurd (cc)
  connect-IsFresh cfg none setup s h = mysql-IsFresh cfg _ _ setup s h

  configured-IsFresh :
      (read : Loaded Config) (setup : Setup) (s : State t o l)
      → configured t o l u pings w read ≡ serving setup s
      → (cfg : Config) × (read ≡ loaded cfg) × IsFresh cfg setup s
  unfolding configured
  configured-IsFresh (loaded cfg) setup s h = (cfg, refl, connect-IsFresh cfg _ setup s h)
  configured-IsFresh (missing k) setup s h = absurd (cc)
  configured-IsFresh (invalid k) setup s h = absurd (cc)

  pub start-IsFresh :
      (env : Env) (setup : Setup) (s : State t o l)
      → start t o l u pings w env ≡ serving setup s
      → (cfg : Config) × (from_env env ≡ loaded cfg) × IsFresh cfg setup s
  unfolding start
  start-IsFresh env setup s h = configured-IsFresh (from_env env) setup s h

  -- Where MYSQL_DSN is not set, a proxy that has started answers every statement that it sends to MySQL,
  -- which by its list TABLE_WHITELIST are the parsed ones that refer to a table that is not listed, with the
  -- error that MySQL is not configured, and reaches no database and not the agent. Statements that begin
  -- with a word of session management are not among them.
  pub start-unconfigured :
      (parse : Text → Parsed) (env : Env) (setup : Setup) (s₀ s : State t o l) (query : Text)
      → start t o l u pings w env ≡ serving setup s₀
      → env (codes "MYSQL_DSN") ≡ []
      → should_noop u query ≡ false
      → NeedsMysql u parse (env (codes "TABLE_WHITELIST")) query
      → handle_query t o l u digest parse setup query s
        ≡ (error (mysql_not_configured (route parse setup.router query).referenced), s)
  unfolding handle_query
  start-unconfigured parse env setup s₀ s query h off word needs =
      let (cfg, read, fresh) = start-IsFresh env setup s₀ h in
      let (dsn, whitelist) = from_env-fields env cfg read in
      let router_is : setup.router ≡ new_router u (env (codes "TABLE_WHITELIST")) =
        ap (λ x. x.router) fresh.as_configured ∙ (unfold setup_of in ap (new_router u) whitelist) in
      let routed : (route parse setup.router query).destination ≡ mysql =
        ap (λ x. (route parse x query).destination) router_is
        ∙ (route-mysql_iff u parse (env (codes "TABLE_WHITELIST")) query).1 needs in
      let no_mysql : setup.has_mysql ≡ false =
        ap (λ x. x.has_mysql) fresh.as_configured
        ∙ (unfold setup_of in ap (λ x. not (is_empty x)) (dsn ∙ off) ∙ (unfold is_empty in refl)) in
      rw (word, routed) (unfold dispatch on_mysql in rw no_mysql refl)
