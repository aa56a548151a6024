-- ===== src/Proxy/Retry.antt =====
-- The attempts of `execWithRetry`: what was executed, and why it ended.
use mysql_redshift_agent.Prelude.{
  ℕ, zero, suc, ◌+◌, ◌<◌, ◌≡◌, refl, true, false, Bool, Option, none, some, ◌==◌, ==_iff, arith,
}
use mysql_redshift_agent.Text.{Text}
use mysql_redshift_agent.Value.{ℤ}
use mysql_redshift_agent.Proxy.Values.{Types, Result}
use mysql_redshift_agent.Proxy.Client.{
  TranslateResponse, Executed, done, failed, Outside, ClientError, Translated, translated, refused,
  translate,
}
use mysql_redshift_agent.Proxy.Server.{
  Retried, won, lost, rounds, fix_request, after_fix, after_run, exec_loop, exec_with_retry,
}

module _ (t : Types) (o : Outside t) (original : Text) where
  -- So many executions of the first SQL and of what followed it failed, and each time the agent answered the
  -- error with the next SQL; then that SQL, the world and the last error.
  pub data Fixes (sql : Text) (w : o.World) : ℕ → Text → o.World → Option Text → Type 0 where
    unfixed : Fixes sql w zero sql w none
    fixed :
        {n : ℕ} {cur : Text} {wc w' w'' : o.World} {prev : Option Text} {e : Text}
        {r : TranslateResponse}
        → Fixes sql w n cur wc prev
        → o.redshift cur wc ≡ (failed e, w')
        → translate t o (fix_request original e cur) w' ≡ (translated r, w'')
        → Fixes sql w (suc n) r.redshift_sql w'' (some e)

  -- The four ends of at most `max` attempts.
  pub data Ends (max : ℕ) (sql : Text) (w : o.World) (end : Retried t × o.World) : Type 0 where
    no_attempt : max ≡ 0 → end ≡ (lost none, w) → Ends max sql w end
    succeeded :
        (n : ℕ) (cur : Text) (wc w' : o.World) (prev : Option Text) (r : Result t) (ms : ℕ)
        → Fixes sql w n cur wc prev
        → n < max
        → o.redshift cur wc ≡ (done r ms, w')
        → end ≡ (won r cur ms, w')
        → Ends max sql w end
    exhausted :
        (n : ℕ) (cur : Text) (wc w' : o.World) (prev : Option Text) (e : Text)
        → Fixes sql w n cur wc prev
        → n + 1 ≡ max
        → o.redshift cur wc ≡ (failed e, w')
        → end ≡ (lost (some e), w')
        → Ends max sql w end
    not_fixed :
        (n : ℕ) (cur : Text) (wc w' w'' : o.World) (prev : Option Text) (e : Text) (x : ClientError)
        → Fixes sql w n cur wc prev
        → n + 1 < max
        → o.redshift cur wc ≡ (failed e, w')
        → translate t o (fix_request original e cur) w' ≡ (refused x, w'')
        → end ≡ (lost (some e), w'')
        → Ends max sql w end

  module _ (max : ℕ) (sql : Text) (w : o.World) where
    -- The next round, where the agent has answered the error
    after_fix-Ends :
        (next : Text → Option Text → o.World → Retried t × o.World) (n : ℕ) (cur : Text)
        (prev : Option Text) (wc w' w'' : o.World) (e : Text) (a : Translated)
        → Fixes sql w n cur wc prev
        → n + 1 < max
        → o.redshift cur wc ≡ (failed e, w')
        → translate t o (fix_request original e cur) w' ≡ (a, w'')
        → ((cur' : Text) (prev' : Option Text) (wc' : o.World)
            → Fixes sql w (suc n) cur' wc' prev'
            → Ends max sql w (next cur' prev' wc'))
        → Ends max sql w (after_fix t o next e a w'')
    unfolding after_fix
    after_fix-Ends next n cur prev wc w' w'' e (refused x) f h q p ih =
        not_fixed n cur wc w' w'' prev e x f h q p refl
    after_fix-Ends next n cur prev wc w' w'' e (translated r) f h q p ih =
        ih r.redshift_sql (some e) w'' (fixed f q p)

    after_run-Ends :
        (next : Text → Option Text → o.World → Retried t × o.World) (last : Bool) (n : ℕ)
        (cur : Text) (prev : Option Text) (wc w' : o.World) (run : Executed t)
        → Fixes sql w n cur wc prev
        → n < max
        → (last ≡ true → n + 1 ≡ max)
        → (last ≡ false → n + 1 < max)
        → o.redshift cur wc ≡ (run, w')
        → ((cur' : Text) (prev' : Option Text) (wc' : o.World)
            → last ≡ false
            → Fixes sql w (suc n) cur' wc' prev'
            → Ends max sql w (next cur' prev' wc'))
        → Ends max sql w (after_run t o next last original cur run w')
    unfolding after_run
    after_run-Ends next true n cur prev wc w' (done r ms) f h hl hm q ih =
        succeeded n cur wc w' prev r ms f h q refl
    after_run-Ends next false n cur prev wc w' (done r ms) f h hl hm q ih =
        succeeded n cur wc w' prev r ms f h q refl
    after_run-Ends next true n cur prev wc w' (failed e) f h hl hm q ih =
        exhausted n cur wc w' prev e f (hl refl) q refl
    after_run-Ends next false n cur prev wc w' (failed e) f h hl hm q ih =
        after_fix-Ends next n cur prev wc w' _ e _ f (hm refl) q refl (λ c p v. ih c p v refl)

    loop-Ends :
        (m n : ℕ) (cur : Text) (prev : Option Text) (wc : o.World)
        → Fixes sql w n cur wc prev
        → n + m ≡ max
        → (m ≡ 0 → n ≡ 0)
        → Ends max sql w (exec_loop t o m original cur prev wc)
    unfolding exec_loop
    loop-Ends zero n cur prev wc f h z = none_left n cur prev wc f (z refl) (omega arith)
      where
        none_left :
            (k : ℕ) (c : Text) (p : Option Text) (v : o.World)
            → Fixes sql w k c v p
            → k ≡ 0
            → max ≡ 0
            → Ends max sql w (lost p, v)
        none_left k c p v unfixed e q = no_attempt q refl
        none_left k c p v (fixed g x y) e q = absurd (omega arith)
    loop-Ends (suc m) n cur prev wc f h z =
        after_run-Ends (exec_loop t o m original) (m == 0) n cur prev wc _ _ f (omega arith)
          (λ e. omega (arith, (==_iff m 0).0 e)) (λ e. ground arith) refl
          (λ c p v e g. loop-Ends m (suc n) c p v g (omega arith) (λ k. absurd (ground arith)))

  -- The retries end in one of four ways. Each executed statement but the first is the agent's answer to the
  -- error of the one before it, sent with the original statement. The result is that of the last executed
  -- statement, which is returned with it, after fewer failures than the number of attempts; otherwise the
  -- error is that of the last execution, after as many executions as attempts or because the agent refused
  -- to fix it; where no attempt is allowed nothing is executed.
  pub exec_with_retry-Ends :
      (max_attempts : ℤ) (sql : Text) (w : o.World)
      → Ends (rounds max_attempts) sql w (exec_with_retry t o max_attempts original sql w)
  unfolding exec_with_retry
  exec_with_retry-Ends max_attempts sql w =
      loop-Ends (rounds max_attempts) sql w (rounds max_attempts) 0 sql none w unfixed (omega arith)
        (λ e. refl)
