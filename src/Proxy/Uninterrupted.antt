-- ===== src/Proxy/Uninterrupted.antt =====
-- A query of one connection that no other connection comes between.
use mysql_redshift_agent.Prelude.{
  ℕ, zero, suc, ◌≡◌, refl, Option, none, some, List, inl, inr, Bool-cases,
}
use mysql_redshift_agent.Text.{Text}
use mysql_redshift_agent.Proxy.GoText.{Unicode}
use mysql_redshift_agent.Proxy.Router.{Parsed, Destination}
use mysql_redshift_agent.Proxy.Cache.{Lru}
use mysql_redshift_agent.Proxy.Values.{Types, blank}
use mysql_redshift_agent.Proxy.Client.{Outside, Translated, translated, refused}
use mysql_redshift_agent.Proxy.Server.{
  Answer, result, Retried, won, lost, Setup, State, should_noop, dispatch, on_redshift,
  after_lookup, after_translate, run_translated, after_retries, handle_query,
}
use mysql_redshift_agent.Proxy.Connections.{
  Place, arrived, running, answered, routed_place, looked_up, asked, ran, moved,
}

module _ (t : Types) (o : Outside t) (l : Lru) (u : Unicode) (digest : Text → Text)
    (parse : Text → Parsed) (setup : Setup) where
  abbrev Moved : ℕ → Place t → State t o l → Place t × State t o l
  Moved = moved t o l u digest parse setup

  abbrev Served : Answer t × State t o l → Place t × State t o l
  Served r = (answered r.0, r.1)

  -- An answer stays.
  answered-alone :
      (n : ℕ) (a : Answer t) (s : State t o l) → Moved n (answered a) s ≡ (answered a, s)
  unfolding moved
  answered-alone zero a s = refl
  answered-alone (suc n) a s = answered-alone n a s

  ran-alone :
      (n : ℕ) (query rs : Text) (end : Retried t) (s : State t o l)
      → Moved (suc (suc n)) (ran t o l u digest parse setup query rs end) s
        ≡ Served (after_retries t o l u digest parse setup query rs end s)
  unfolding moved after_retries
  ran-alone n query rs (lost e) s = answered-alone n _ s
  ran-alone n query rs (won r cur ms) s = answered-alone n _ _

  running-alone :
      (n : ℕ) (query rs : Text) (s : State t o l)
      → Moved (suc (suc (suc n))) (running query rs) s
        ≡ Served (run_translated t o l u digest parse setup query rs s)
  unfolding moved run_translated
  running-alone n query rs s = ran-alone n query rs _ _

  asked-alone :
      (n : ℕ) (query : Text) (a : Translated) (s : State t o l)
      → Moved (suc (suc (suc (suc n)))) (asked t o l u digest parse setup query a) s
        ≡ Served (after_translate t o l u digest parse setup query a s)
  unfolding moved after_translate
  asked-alone n query (refused e) s = answered-alone n _ s
  asked-alone n query (translated resp) s = running-alone n query resp.redshift_sql _

  looked_up-alone :
      (n : ℕ) (query : Text) (found : Option Text) (s : State t o l)
      → let p = looked_up t o l u digest parse setup query found s in
        Moved (suc (suc (suc (suc (suc n))))) p.0 p.1
        ≡ Served (after_lookup t o l u digest parse setup query found s)
  unfolding moved after_lookup
  looked_up-alone n query none s = asked-alone n query _ _
  looked_up-alone n query (some rs) s = running-alone (suc (suc n)) query rs _

  routed_place-alone :
      (n : ℕ) (d : Destination) (tables : List Text) (query : Text) (s : State t o l)
      → let p = routed_place t o l u digest parse setup d tables query s in
        Moved (suc (suc (suc (suc (suc (suc n)))))) p.0 p.1
        ≡ Served (dispatch t o l u digest parse setup d tables query s)
  unfolding moved dispatch on_redshift
  routed_place-alone n Destination.redshift tables query s = looked_up-alone n query _ _
  routed_place-alone n Destination.mysql tables query s = answered-alone n _ _

  -- A query that no other connection comes between has the answer of `handle_query` after seven steps and
  -- leaves its state.
  pub moved-alone :
      (query : Text) (s : State t o l)
      → moved t o l u digest parse setup 7 (arrived query) s ≡ (
        answered (handle_query t o l u digest parse setup query s).0,
        (handle_query t o l u digest parse setup query s).1,
      )
  unfolding moved handle_query
  moved-alone query s = elim (Bool-cases (should_noop u query)) [
    | inl e ↦ rw e (answered-alone 6 (result blank) s)
    | inr e ↦ rw e (routed_place-alone 0 _ _ query s)
  ]
