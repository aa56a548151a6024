-- ===== src/Proxy/Serves.antt =====
-- What the proxy does from its state on: queries and posts of samples.
use mysql_redshift_agent.Text.{Text}
use mysql_redshift_agent.Proxy.GoText.{Unicode}
use mysql_redshift_agent.Proxy.Router.{Parsed}
use mysql_redshift_agent.Proxy.Cache.{Lru}
use mysql_redshift_agent.Proxy.Values.{Types}
use mysql_redshift_agent.Proxy.Client.{Outside}
use mysql_redshift_agent.Proxy.Saves.{worker}
use mysql_redshift_agent.Proxy.Server.{Setup, State, handle_query}

module _ (t : Types) (o : Outside t) (l : Lru) (u : Unicode) (digest : Text → Text)
    (parse : Text → Parsed) (setup : Setup) where
  -- Queries, one at a time, and posts of samples
  pub data Serves (s : State t o l) : State t o l → Type 0 where
    begun : Serves s s
    queried :
        {s' : State t o l} (query : Text)
        → Serves s s'
        → Serves s (handle_query t o l u digest parse setup query s').1
    posted :
        {s' : State t o l}
        → Serves s s'
        → Serves s (record s' {
          queue = (worker t o s'.queue s'.world).0;
          world = (worker t o s'.queue s'.world).1;
        })
