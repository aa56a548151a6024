-- ===== src/Proxy/Concurrent.antt =====
-- The cache and the queue while several connections are served.
use mysql_redshift_agent.Prelude.{ℕ, ◌≡◌, refl, Option, none, some, List, All, if_both}
use mysql_redshift_agent.Text.{Text, text_eq}
use mysql_redshift_agent.Proxy.GoText.{Unicode}
use mysql_redshift_agent.Proxy.Router.{Parsed, Destination}
use mysql_redshift_agent.Proxy.Normalize.{key}
use mysql_redshift_agent.Proxy.Cache.{Lru, cache_get, cache_set, inc_hit, inc_miss}
use mysql_redshift_agent.Proxy.Values.{Types, Result}
use mysql_redshift_agent.Proxy.Client.{Outside, Translated, translated, refused, translate}
use mysql_redshift_agent.Proxy.Server.{
  Retried, won, lost, rounds, Setup, State, first_request, exec_with_retry, should_noop,
}
use mysql_redshift_agent.Proxy.Retry.{exec_with_retry-Ends}
use mysql_redshift_agent.Proxy.Cached.{
  Origin, origin, HasOrigins, IsKept, cache_get-HasOrigins, cache_set-HasOrigins, won-Origin,
  saved-All, worker-IsSample, mysql-IsKept,
}
use mysql_redshift_agent.Proxy.Connections.{
  Place, arrived, looking, asking, storing, running, keeping, saving, answered, routed_place,
  looked_up, asked, ran, move, Moves, here, there, Reach, begun, stepped, connected, posted, passed,
}

module _ (t : Types) (o : Outside t) (l : Lru) (u : Unicode) (digest : Text → Text)
    (parse : Text → Parsed) (setup : Setup) where
  abbrev Kept : State t o l → Type 0
  Kept = IsKept t o l u digest

  -- The SQL that a query holds is an answer of the agent for a statement of its key.
  abbrev pub IsHeld : Place t → Type 0
  IsHeld (arrived query) = Unit
  IsHeld (looking query) = Unit
  IsHeld (asking query) = Unit
  IsHeld (storing query rs) = Origin t o l u digest (key digest u query) rs
  IsHeld (running query rs) = Origin t o l u digest (key digest u query) rs
  IsHeld (keeping query rs r cur ms) = Origin t o l u digest (key digest u query) cur
  IsHeld (saving query r cur ms) = Origin t o l u digest (key digest u query) cur
  IsHeld (answered a) = Unit

  abbrev Leaves : Place t × State t o l → Type 0
  Leaves r = IsHeld r.0 × Kept r.1

  routed-Leaves :
      (d : Destination) (tables : List Text) (query : Text) (s : State t o l)
      → Kept s
      → Leaves (routed_place t o l u digest parse setup d tables query s)
  unfolding routed_place
  routed-Leaves Destination.redshift tables query s h = (tt, h)
  routed-Leaves Destination.mysql tables query s h =
      (tt, mysql-IsKept t o l u digest parse setup query tables s h)

  looked_up-Leaves :
      (query : Text) (found : Option Text) (s : State t o l)
      → ((v : Text) → found ≡ some v → Origin t o l u digest (key digest u query) v)
      → Kept s
      → Leaves (looked_up t o l u digest parse setup query found s)
  unfolding looked_up
  looked_up-Leaves query none s g h = (
    tt,
    record { origins = unfold inc_miss in h.origins; bounded = h.bounded; samples = h.samples },
  )
  looked_up-Leaves query (some v) s g h = (
    g v refl,
    record { origins = unfold inc_hit in h.origins; bounded = h.bounded; samples = h.samples },
  )

  asked-IsHeld :
      (query : Text) (w w' : o.World) (a : Translated)
      → translate t o (first_request query) w ≡ (a, w')
      → IsHeld (asked t o l u digest parse setup query a)
  unfolding asked
  asked-IsHeld query w w' (refused e) q = tt
  asked-IsHeld query w w' (translated r) q =
      origin (first_request query) r w w' (unfold first_request in refl) q refl

  ran-IsHeld :
      (query rs : Text) (end : Retried t)
      → ((r : Result t) (cur : Text) (ms : ℕ)
          → end ≡ won r cur ms
          → Origin t o l u digest (key digest u query) cur)
      → IsHeld (ran t o l u digest parse setup query rs end)
  unfolding ran
  ran-IsHeld query rs (lost e) g = tt
  ran-IsHeld query rs (won r cur ms) g = g r cur ms refl

  with_world : (s : State t o l) (w : o.World) → Kept s → Kept (record s { world = w })
  with_world s w h = record { origins = h.origins; bounded = h.bounded; samples = h.samples }

  move-Leaves :
      (p : Place t) (s : State t o l)
      → IsHeld p
      → Kept s
      → Leaves (move t o l u digest parse setup p s)
  unfolding move
  move-Leaves (arrived query) s g h =
      if_both Leaves (should_noop u query) _ _ (λ e. (tt, h)) (λ e. routed-Leaves _ _ query s h)
  move-Leaves (looking query) s g h =
      looked_up-Leaves query _ _ (λ v e. h.origins (key digest u query) v (looked v e))
        (record {
          origins = cache_get-HasOrigins t o l u digest (key digest u query) s.cache h.origins;
          bounded = h.bounded;
          samples = h.samples;
        })
    where
      looked :
          (v : Text)
          → (cache_get l (key digest u query) s.cache).0 ≡ some v
          → (l.get (key digest u query) s.cache.inner).0 ≡ some v
      looked v e = unfold cache_get in e
  move-Leaves (asking query) s g h = (asked-IsHeld query s.world _ _ refl, with_world s _ h)
  move-Leaves (storing query rs) s g h = (
    g,
    record {
      origins = cache_set-HasOrigins t o l u digest (key digest u query) rs s.cache h.origins g;
      bounded = h.bounded;
      samples = h.samples;
    },
  )
  move-Leaves (running query rs) s g h =
      let end = exec_with_retry t o setup.cfg.max_attempts query rs s.world in
      (
        ran-IsHeld query rs end.0 (λ r cur ms e.
            won-Origin t o l u digest query rs (rounds setup.cfg.max_attempts) s.world end r cur ms
              (exec_with_retry-Ends t o query setup.cfg.max_attempts rs s.world) e g),
        with_world s end.1 h,
      )
  move-Leaves (keeping query rs r cur ms) s g h = (
    g,
    record {
      origins =
          if_both (HasOrigins t o l u digest) (text_eq cur rs) s.cache
            (cache_set l (key digest u query) cur s.cache) (λ e. h.origins)
            (λ e. cache_set-HasOrigins t o l u digest (key digest u query) cur s.cache h.origins g);
      bounded = h.bounded;
      samples = h.samples;
    },
  )
  move-Leaves (saving query r cur ms) s g h =
      let (b, a) =
        saved-All t o l u digest parse setup query r cur ms s.queue g h.bounded h.samples in
      (tt, record { origins = h.origins; bounded = b; samples = a })
  move-Leaves (answered a) s g h = (tt, h)

  Moves-Leaves :
      {s : State t o l} {ps : List (Place t)} {s' : State t o l} {ps' : List (Place t)}
      → Moves t o l u digest parse setup s ps s' ps'
      → All IsHeld ps
      → Kept s
      → All IsHeld ps' × Kept s'
  Moves-Leaves {s} (here p ps) g h = let (g', h') = move-Leaves p s g.0 h in ((g', g.1), h')
  Moves-Leaves (there p m) g h = let (g', h') = Moves-Leaves m g.1 h in ((g.0, g'), h')

  -- However the queries of several connections are interleaved, each step of one with the steps of the
  -- others, the posts of the worker and changes of what lies outside: every entry of the cache is SQL that
  -- the agent has returned for a statement of the entry's key, and so is the SQL that a query is running or
  -- about to store; the queue holds at most 256 samples, each with rows, fewer than 8000 bytes, the source
  -- "runtime", and SQL that the agent has returned for a statement with its key.
  pub Reach-IsKept :
      {s : State t o l} {ps : List (Place t)} {s' : State t o l} {ps' : List (Place t)}
      → Reach t o l u digest parse setup s ps s' ps'
      → IsKept t o l u digest s
      → All IsHeld ps
      → IsKept t o l u digest s' × All IsHeld ps'
  Reach-IsKept begun h g = (h, g)
  Reach-IsKept (stepped r m) h g =
      let (h', g') = Reach-IsKept r h g in let (g'', h'') = Moves-Leaves m g' h' in (h'', g'')
  Reach-IsKept (connected query r) h g = let (h', g') = Reach-IsKept r h g in (h', (tt, g'))
  Reach-IsKept (posted {s' = s'} r) h g =
      let (h', g') = Reach-IsKept r h g in
      let (b, a) =
        worker-IsSample t o l u digest parse setup s'.queue s'.world (h'.bounded, h'.samples) in
      (record { origins = h'.origins; bounded = b; samples = a }, g')
  Reach-IsKept (passed w r) h g = let (h', g') = Reach-IsKept r h g in (with_world _ w h', g')
