-- ===== src/Proxy/Connections.antt =====
-- The queries of several connections in any order: `HandleQuery` runs in a goroutine for each connection over
-- one cache and one queue. A step is one access to them or a call outside; the executions and fixes of one query
-- are one step, since they touch neither.
use mysql_redshift_agent.Prelude.{ℕ, zero, suc, Option, none, some, List, ◌∷◌, if◌then◌else◌}
use mysql_redshift_agent.Text.{Text, text_eq}
use mysql_redshift_agent.Proxy.GoText.{Unicode}
use mysql_redshift_agent.Proxy.Router.{Parsed, Destination, route}
use mysql_redshift_agent.Proxy.Normalize.{key}
use mysql_redshift_agent.Proxy.Cache.{Lru, cache_get, cache_set, inc_hit, inc_miss}
use mysql_redshift_agent.Proxy.Values.{Types, Result, blank}
use mysql_redshift_agent.Proxy.Client.{Outside, Translated, translated, refused, translate}
use mysql_redshift_agent.Proxy.Saves.{worker}
use mysql_redshift_agent.Proxy.Server.{
  Answer, result, error, translate_failed, redshift_exec, Retried, won, lost, Setup, State,
  first_request, exec_with_retry, on_mysql, answer_of, saved, should_noop,
}

-- Where a query stands
pub data Place (t : Types) : Type 0 where
  arrived : Text → Place t
  looking : Text → Place t
  asking : Text → Place t
  storing : Text → Text → Place t
  running : Text → Text → Place t
  keeping : Text → Text → Result t → Text → ℕ → Place t
  saving : Text → Result t → Text → ℕ → Place t
  answered : Answer t → Place t

module _ (t : Types) (o : Outside t) (l : Lru) (u : Unicode) (digest : Text → Text)
    (parse : Text → Parsed) (setup : Setup) where
  unfoldable pub routed_place : Destination → List Text → Text → State t o l → Place t × State t o l
  routed_place Destination.redshift tables query s = (looking query, s)
  routed_place Destination.mysql tables query s =
      let (answer, s') = on_mysql t o l u digest parse setup query tables s in (answered answer, s')

  unfoldable pub looked_up : Text → Option Text → State t o l → Place t × State t o l
  looked_up query none s = (asking query, record s { cache = inc_miss l s.cache })
  looked_up query (some rs) s = (running query rs, record s { cache = inc_hit l s.cache })

  unfoldable pub asked : Text → Translated → Place t
  asked query (refused e) = answered (error (translate_failed e))
  asked query (translated resp) = storing query resp.redshift_sql

  unfoldable pub ran : Text → Text → Retried t → Place t
  ran query rs (lost e) = answered (error (redshift_exec setup.cfg.max_attempts e))
  ran query rs (won r cur ms) = keeping query rs r cur ms

  -- The next step of a query
  unfoldable pub move : Place t → State t o l → Place t × State t o l
  unfolding routed_place looked_up asked ran
  move (arrived query) s =
      let routed = route parse setup.router query in
      if should_noop u query
      then (answered (result blank), s)
      else routed_place routed.destination routed.referenced query s
  move (looking query) s =
      let (found, c) = cache_get l (key digest u query) s.cache in
      looked_up query found (record s { cache = c })
  move (asking query) s =
      let (answer, w) = translate t o (first_request query) s.world in
      (asked query answer, record s { world = w })
  move (storing query rs) s =
      (running query rs, record s { cache = cache_set l (key digest u query) rs s.cache })
  move (running query rs) s =
      let (end, w) = exec_with_retry t o setup.cfg.max_attempts query rs s.world in
      (ran query rs end, record s { world = w })
  move (keeping query rs r cur ms) s = (
    saving query r cur ms,
    record s {
      cache = if text_eq cur rs then s.cache else cache_set l (key digest u query) cur s.cache;
    },
  )
  move (saving query r cur ms) s = (
    answered (answer_of t o l u digest parse setup r),
    record s { queue = saved t o l u digest parse setup query r cur ms s.queue },
  )
  move (answered a) s = (answered a, s)

  -- A query that no other one comes between
  unfoldable pub moved : ℕ → Place t → State t o l → Place t × State t o l
  unfolding move
  moved zero p s = (p, s)
  moved (suc n) p s = let (p', s') = move p s in moved n p' s'

  -- A step of one of the connections
  pub data Moves (s : State t o l) : List (Place t) → State t o l → List (Place t) → Type 0 where
    here : (p : Place t) (ps : List (Place t)) → Moves s (p ∷ ps) (move p s).1 ((move p s).0 ∷ ps)
    there :
        {s' : State t o l} {ps ps' : List (Place t)} (p : Place t)
        → Moves s ps s' ps'
        → Moves s (p ∷ ps) s' (p ∷ ps')

  -- What the connections, the worker and changes of what lies outside reach together
  pub data Reach (s : State t o l) (ps : List (Place t))
      : State t o l → List (Place t) → Type 0 where
    begun : Reach s ps s ps
    stepped :
        {s' s'' : State t o l} {ps' ps'' : List (Place t)}
        → Reach s ps s' ps'
        → Moves s' ps' s'' ps''
        → Reach s ps s'' ps''
    connected :
        {s' : State t o l} {ps' : List (Place t)} (query : Text)
        → Reach s ps s' ps'
        → Reach s ps s' (arrived query ∷ ps')
    posted :
        {s' : State t o l} {ps' : List (Place t)}
        → Reach s ps s' ps'
        → Reach s ps
            (record s' {
              queue = (worker t o s'.queue s'.world).0;
              world = (worker t o s'.queue s'.world).1;
            })
            ps'
    passed :
        {s' : State t o l} {ps' : List (Place t)} (w : o.World)
        → Reach s ps s' ps'
        → Reach s ps (record s' { world = w }) ps'
