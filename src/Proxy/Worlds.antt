-- ===== src/Proxy/Worlds.antt =====
-- What every call of the proxy keeps of the world, its queries keep.
use mysql_redshift_agent.Prelude.{
  ℕ, zero, suc, Bool, true, false, not, Option, none, some, List, [], ◌∷◌, ◌==◌, if_both,
}
use mysql_redshift_agent.Text.{Text}
use mysql_redshift_agent.Proxy.GoText.{Unicode}
use mysql_redshift_agent.Proxy.Router.{Parsed, Destination}
use mysql_redshift_agent.Proxy.Cache.{Lru}
use mysql_redshift_agent.Proxy.Values.{Types}
use mysql_redshift_agent.Proxy.Client.{
  TranslateRequest, SaveReq, Executed, done, failed, Outside, Translated, translated, refused,
  translate,
}
use mysql_redshift_agent.Proxy.Saves.{worker}
use mysql_redshift_agent.Value.{ℤ}
use mysql_redshift_agent.Proxy.Serves.{Serves, begun, queried, posted}
use mysql_redshift_agent.Proxy.Server.{
  Answer, Retried, won, lost, Setup, State, after_fix, after_run, exec_loop, exec_with_retry,
  on_mysql, after_retries, run_translated, after_translate, after_lookup, on_redshift, dispatch,
  handle_query, should_noop,
}

module _ (t : Types) (o : Outside t) (I : o.World → Type 0) where
  pub record Keeps : Type 0 where
    pub redshift : (sql : Text) (w : o.World) → I w → I (o.redshift sql w).1
    pub mysql : (sql : Text) (w : o.World) → I w → I (o.mysql sql w).1
    pub post : (req : TranslateRequest) (w : o.World) → I w → I (o.post req w).1
    pub save : (req : SaveReq) (w : o.World) → I w → I (o.save req w)

  module _ (keeps : Keeps) where
    translate_keeps : (req : TranslateRequest) (w : o.World) → I w → I (translate t o req w).1
    unfolding translate
    translate_keeps req w i = keeps.post req w i

    fix_keeps :
        (next : Text → Option Text → o.World → Retried t × o.World) (e : Text) (a : Translated)
        (w : o.World)
        → ((cur : Text) (prev : Option Text) (v : o.World) → I v → I (next cur prev v).1)
        → I w
        → I (after_fix t o next e a w).1
    unfolding after_fix
    fix_keeps next e (refused x) w ih i = i
    fix_keeps next e (translated r) w ih i = ih r.redshift_sql (some e) w i

    run_keeps :
        (next : Text → Option Text → o.World → Retried t × o.World) (last : Bool)
        (original cur : Text) (run : Executed t) (w : o.World)
        → ((cur : Text) (prev : Option Text) (v : o.World) → I v → I (next cur prev v).1)
        → I w
        → I (after_run t o next last original cur run w).1
    unfolding after_run
    run_keeps next true original cur (done r ms) w ih i = i
    run_keeps next false original cur (done r ms) w ih i = i
    run_keeps next true original cur (failed e) w ih i = i
    run_keeps next false original cur (failed e) w ih i =
        fix_keeps next e _ _ ih (translate_keeps _ w i)

    loop_keeps :
        (n : ℕ) (original cur : Text) (prev : Option Text) (w : o.World)
        → I w
        → I (exec_loop t o n original cur prev w).1
    unfolding exec_loop
    loop_keeps zero original cur prev w i = i
    loop_keeps (suc n) original cur prev w i =
        run_keeps (exec_loop t o n original) (n == 0) original cur _ _
          (λ c p v. loop_keeps n original c p v) (keeps.redshift cur w i)

    exec_keeps :
        (max : ℤ) (original rs : Text) (w : o.World)
        → I w
        → I (exec_with_retry t o max original rs w).1
    unfolding exec_with_retry
    exec_keeps max original rs w i = loop_keeps _ original rs none w i

    module _ (l : Lru) (u : Unicode) (digest : Text → Text) (parse : Text → Parsed)
        (setup : Setup) where
      retries_keep :
          (query rs : Text) (end : Retried t) (s : State t o l)
          → I s.world
          → I (after_retries t o l u digest parse setup query rs end s).1.world
      unfolding after_retries
      retries_keep query rs (lost e) s i = i
      retries_keep query rs (won r cur ms) s i = i

      translated_keeps :
          (query rs : Text) (s : State t o l)
          → I s.world
          → I (run_translated t o l u digest parse setup query rs s).1.world
      unfolding run_translated
      translated_keeps query rs s i = retries_keep query rs _ _ (exec_keeps _ query rs s.world i)

      answer_keeps :
          (query : Text) (a : Translated) (s : State t o l)
          → I s.world
          → I (after_translate t o l u digest parse setup query a s).1.world
      unfolding after_translate
      answer_keeps query (refused e) s i = i
      answer_keeps query (translated r) s i = translated_keeps query r.redshift_sql _ i

      lookup_keeps :
          (query : Text) (found : Option Text) (s : State t o l)
          → I s.world
          → I (after_lookup t o l u digest parse setup query found s).1.world
      unfolding after_lookup
      lookup_keeps query none s i = answer_keeps query _ _ (translate_keeps _ s.world i)
      lookup_keeps query (some v) s i = translated_keeps query v _ i

      dispatch_keeps :
          (d : Destination) (tables : List Text) (query : Text) (s : State t o l)
          → I s.world
          → I (dispatch t o l u digest parse setup d tables query s).1.world
      unfolding dispatch on_redshift on_mysql
      dispatch_keeps Destination.redshift tables query s i = lookup_keeps query _ _ i
      dispatch_keeps Destination.mysql tables query s i =
          if_both {A = Answer t × State t o l} (λ p. I p.1.world) (not setup.has_mysql) _ _ (λ e. i)
            (λ e. keeps.mysql query s.world i)

      query_keeps :
          (query : Text) (s : State t o l)
          → I s.world
          → I (handle_query t o l u digest parse setup query s).1.world
      unfolding handle_query
      query_keeps query s i =
          if_both {A = Answer t × State t o l} (λ p. I p.1.world) (should_noop u query) _ _ (λ e. i)
            (λ e. dispatch_keeps _ _ query s i)

      worker_keeps : (queue : List SaveReq) (w : o.World) → I w → I (worker t o queue w).1
      unfolding worker
      worker_keeps [] w i = i
      worker_keeps (req ∷ queue) w i = keeps.save req w i

      pub Serves_keeps :
          {s s' : State t o l} → Serves t o l u digest parse setup s s' → I s.world → I s'.world
      Serves_keeps begun i = i
      Serves_keeps (queried query r) i = query_keeps query _ (Serves_keeps r i)
      Serves_keeps (posted r) i = worker_keeps _ _ (Serves_keeps r i)
