-- ===== src/Proxy/Start.antt =====
-- The start of the proxy: `main` of proxy/cmd/proxy/main.go and `New` of proxy/internal/server/server.go. Whether
-- the databases answer the first ping is a parameter.
use mysql_redshift_agent.Prelude.{Bool, true, false, not, Option, none, some, [], ◌++◌}
use mysql_redshift_agent.Text.{Text, codes}
use mysql_redshift_agent.Proxy.GoText.{Unicode, is_empty}
use mysql_redshift_agent.Proxy.Config.{Env, Config, Loaded, loaded, missing, invalid, from_env}
use mysql_redshift_agent.Proxy.Router.{new_router}
use mysql_redshift_agent.Proxy.Cache.{Lru}
use mysql_redshift_agent.Proxy.Values.{Types}
use mysql_redshift_agent.Proxy.Client.{Outside}
use mysql_redshift_agent.Proxy.Server.{Setup, State}

-- What the databases answer to the first ping: nothing, or the text of an error.
pub record Pings : Type 0 where
  pub redshift : Option Text
  pub mysql : Option Text

-- A proxy that serves, a panic of the configuration, or `log.Fatalf`
pub data Started (t : Types) (o : Outside t) (l : Lru) : Type 0 where
  serving : Setup → State t o l → Started t o l
  panicked : Loaded Config → Started t o l
  fatal : Text → Started t o l

unfoldable pub setup_of : Unicode → Config → Setup
setup_of u cfg = record {
  cfg = cfg;
  router = new_router u cfg.table_whitelist;
  has_mysql = not (is_empty cfg.mysql_dsn);
  has_kb = true;
}

module _ (t : Types) (o : Outside t) (l : Lru) (u : Unicode) (pings : Pings) (w : o.World) where
  -- `server.New`
  unfoldable pub new_server : Config → Option l.Store → Started t o l
  unfolding setup_of
  new_server cfg none = fatal (codes "cache init failed")
  new_server cfg (some inner) =
      serving (setup_of u cfg)
        (record { cache = record { inner = inner; hit = 0; miss = 0 }; queue = []; world = w })

  unfoldable pub connect_mysql : Config → Bool → Option Text → Started t o l
  unfolding new_server
  connect_mysql cfg false (some e) = fatal (codes "mysql connect failed: " ++ e)
  connect_mysql cfg false none = new_server cfg (l.new cfg.cache_size)
  connect_mysql cfg true ping = new_server cfg (l.new cfg.cache_size)

  unfoldable pub connect : Config → Option Text → Started t o l
  unfolding connect_mysql
  connect cfg (some e) = fatal (codes "redshift connect failed: " ++ e)
  connect cfg none = connect_mysql cfg (is_empty cfg.mysql_dsn) pings.mysql

  unfoldable pub configured : Loaded Config → Started t o l
  unfolding connect
  configured (loaded cfg) = connect cfg pings.redshift
  configured (missing k) = panicked (missing k)
  configured (invalid s) = panicked (invalid s)

  -- `main` up to the accept loop
  unfoldable pub start : Env → Started t o l
  unfolding configured
  start env = configured (from_env env)
