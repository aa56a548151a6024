-- ===== src/Proxy/Repeated.antt =====
-- A query behind another one of the same key: the cache answers it with the SQL of the other.
use mathlib.Core.Path.{subst}
use mysql_redshift_agent.Prelude.{
  ℕ, zero, suc, ◌<◌, ◌≡◌, refl, sym, ap, ◌∙◌, inl, inr, false, Option, none, some, Bool-cases, ◌==◌,
  if◌then◌else◌, arith,
}
use mysql_redshift_agent.Text.{Text, text_eq}
use mysql_redshift_agent.Text.Laws.{text_eq_iff}
use mysql_redshift_agent.Service.Translate.{text_or_empty}
use mysql_redshift_agent.Proxy.GoText.{Unicode}
use mysql_redshift_agent.Proxy.Router.{Parsed, Destination, route}
use mysql_redshift_agent.Proxy.Normalize.{key}
use mysql_redshift_agent.Proxy.Cache.{Lru, cache_get, cache_set, inc_hit}
use mysql_redshift_agent.Proxy.Values.{Types, Result, MysqlResult}
use mysql_redshift_agent.Proxy.Client.{done, Outside, Translated, translated, refused}
use mysql_redshift_agent.Proxy.Retry.{
  Ends, no_attempt, succeeded, exhausted, not_fixed, exec_with_retry-Ends,
}
use mysql_redshift_agent.Proxy.Server.{
  result, Retried, won, lost, rounds, Setup, State, after_run, exec_loop, exec_with_retry,
  answer_of, after_retries, run_translated, after_translate, after_lookup, on_redshift, dispatch,
  handle_query, should_noop,
}

module _ (t : Types) (o : Outside t) (l : Lru) (u : Unicode) (digest : Text → Text)
    (parse : Text → Parsed) (setup : Setup) where
  -- The query is sent to Redshift.
  pub record IsRedirected (query : Text) : Type 0 where
    pub read : should_noop u query ≡ false
    pub routed : (route parse setup.router query).destination ≡ Destination.redshift

  redirected :
      (query : Text) (s : State t o l)
      → IsRedirected query
      → handle_query t o l u digest parse setup query s
        ≡ on_redshift t o l u digest parse setup query s
  unfolding handle_query
  redirected query s h = rw (h.read, h.routed) (unfold dispatch in refl)

  -- The SQL was executed and gave the answer.
  pub record Gave (sql : Text) (m : MysqlResult t) : Type 0 where
    pub before : o.World
    pub after : o.World
    pub rows : Result t
    pub ms : ℕ
    pub executed : o.redshift sql before ≡ (done rows ms, after)
    pub answers : answer_of t o l u digest parse setup rows ≡ result m

  -- The cache holds for the query the SQL that gave the answer.
  abbrev pub HoldsWinner : Text → MysqlResult t → State t o l → Type 0
  HoldsWinner query m s =
      (sql : Text) × ((l.get (key digest u query) s.cache.inner).0 ≡ some sql) × Gave sql m

  winner-executed :
      (query rs : Text) (max : ℕ) (w : o.World) (end : Retried t × o.World) (r : Result t)
      (cur : Text) (ms : ℕ)
      → Ends t o query max rs w end
      → end.0 ≡ won r cur ms
      → (before : o.World) × (after : o.World) × (o.redshift cur before ≡ (done r ms, after))
  winner-executed query rs max w end r cur ms (no_attempt z e) h = absurd (cc (ap (λ p. p.0) e, h))
  winner-executed query rs max w end r cur ms (exhausted n c wc w' prev x f m q e) h =
      absurd (cc (ap (λ p. p.0) e, h))
  winner-executed query rs max w end r cur ms (not_fixed n c wc w' w'' prev x y f m q z e) h =
      absurd (cc (ap (λ p. p.0) e, h))
  winner-executed query rs max w end r cur ms (succeeded n c wc w' prev x ms' f m q e) h =
      let p = sym (ap (λ p. p.0) e) ∙ h in
      let same_sql : c ≡ cur = cc p in
      let same_rows : x ≡ r = cc p in
      let same_ms : ms' ≡ ms = cc p in (wc, w', rw (← same_sql, ← same_rows, ← same_ms) q)

  retries-HoldsWinner :
      (query rs : Text) (end : Retried t) (s : State t o l) (m : MysqlResult t)
      → ((r : Result t) (cur : Text) (ms : ℕ)
          → end ≡ won r cur ms
          → (before : o.World) × (after : o.World) × (o.redshift cur before ≡ (done r ms, after)))
      → (l.get (key digest u query) s.cache.inner).0 ≡ some rs
      → (after_retries t o l u digest parse setup query rs end s).0 ≡ result m
      → HoldsWinner query m (after_retries t o l u digest parse setup query rs end s).1
  unfolding after_retries
  retries-HoldsWinner query rs (lost e) s m g c h = absurd (cc h)
  retries-HoldsWinner query rs (won r cur ms) s m g c h =
      let (before, after, q) = g r cur ms refl in
      let gave : Gave cur m = record {
        before = before;
        after = after;
        rows = r;
        ms = ms;
        executed = q;
        answers = h;
      } in
      (cur, held, gave)
    where
      held :
          (l.get
            (key digest u query)
            (if text_eq cur rs
              then s.cache
              else cache_set l (key digest u query) cur s.cache).inner).0
          ≡ some cur
      held = elim (Bool-cases (text_eq cur rs)) [
        | inl e ↦ rw e (c ∙ ap (λ x. some x) (sym ((text_eq_iff cur rs).0 e)))
        | inr e ↦ rw e (unfold cache_set in l.get_added (key digest u query) cur s.cache.inner)
      ]

  run-HoldsWinner :
      (query rs : Text) (s : State t o l) (m : MysqlResult t)
      → (l.get (key digest u query) s.cache.inner).0 ≡ some rs
      → (run_translated t o l u digest parse setup query rs s).0 ≡ result m
      → HoldsWinner query m (run_translated t o l u digest parse setup query rs s).1
  unfolding run_translated
  run-HoldsWinner query rs s m c h =
      let end = exec_with_retry t o setup.cfg.max_attempts query rs s.world in
      retries-HoldsWinner query rs end.0 (record s { world = end.1 }) m
        (λ r cur ms e.
          winner-executed query rs (rounds setup.cfg.max_attempts) s.world end r cur ms
            (exec_with_retry-Ends t o query setup.cfg.max_attempts rs s.world) e)
        c h

  translate-HoldsWinner :
      (query : Text) (a : Translated) (s : State t o l) (m : MysqlResult t)
      → (after_translate t o l u digest parse setup query a s).0 ≡ result m
      → HoldsWinner query m (after_translate t o l u digest parse setup query a s).1
  unfolding after_translate
  translate-HoldsWinner query (refused e) s m h = absurd (cc h)
  translate-HoldsWinner query (translated r) s m h =
      run-HoldsWinner query r.redshift_sql _ m
        (unfold cache_set in l.get_added (key digest u query) r.redshift_sql s.cache.inner) h

  lookup-HoldsWinner :
      (query : Text) (found : Option Text) (s : State t o l) (m : MysqlResult t)
      → ((v : Text) → found ≡ some v → (l.get (key digest u query) s.cache.inner).0 ≡ some v)
      → (after_lookup t o l u digest parse setup query found s).0 ≡ result m
      → HoldsWinner query m (after_lookup t o l u digest parse setup query found s).1
  unfolding after_lookup
  lookup-HoldsWinner query none s m g h = translate-HoldsWinner query _ _ m h
  lookup-HoldsWinner query (some v) s m g h =
      run-HoldsWinner query v _ m (unfold inc_hit in g v refl) h

  redshift-HoldsWinner :
      (query : Text) (s : State t o l) (m : MysqlResult t)
      → (on_redshift t o l u digest parse setup query s).0 ≡ result m
      → HoldsWinner query m (on_redshift t o l u digest parse setup query s).1
  unfolding on_redshift
  redshift-HoldsWinner query s m h = lookup-HoldsWinner query _ _ m looked h
    where
      k : Text
      k = key digest u query

      looked :
          (v : Text)
          → (cache_get l k s.cache).0 ≡ some v
          → (l.get k (cache_get l k s.cache).1.inner).0 ≡ some v
      looked v e = unfold cache_get in (l.get_got k k s.cache.inner ∙ e)

  -- One execution that succeeds ends the retries.
  loop_once :
      (n : ℕ) (query sql : Text) (w w' : o.World) (r : Result t) (ms : ℕ)
      → 0 < n
      → o.redshift sql w ≡ (done r ms, w')
      → exec_loop t o n query sql none w ≡ (won r sql ms, w')
  unfolding exec_loop
  loop_once zero query sql w w' r ms h q = absurd (omega arith)
  loop_once (suc n) query sql w w' r ms h q = rw q (once n)
    where
      once :
          (k : ℕ)
          → after_run t o (exec_loop t o k query) (k == 0) query sql (done r ms) w'
            ≡ (won r sql ms, w')
      once k = unfold after_run in refl

  run_once :
      (query sql : Text) (s : State t o l) (w' : o.World) (r : Result t) (ms : ℕ)
      → 0 < rounds setup.cfg.max_attempts
      → o.redshift sql s.world ≡ (done r ms, w')
      → ((run_translated t o l u digest parse setup query sql s).0
          ≡ answer_of t o l u digest parse setup r)
        × ((run_translated t o l u digest parse setup query sql s).1.world ≡ w')
  run_once query sql s w' r ms h q =
      let e : exec_with_retry t o setup.cfg.max_attempts query sql s.world ≡ (won r sql ms, w') =
        unfold exec_with_retry in loop_once _ query sql s.world w' r ms h q in
      unfold run_translated after_retries in rw e (refl, refl)

  lookup_once :
      (query sql : Text) (found : Option Text) (s : State t o l) (w' : o.World) (r : Result t)
      (ms : ℕ)
      → found ≡ some sql
      → 0 < rounds setup.cfg.max_attempts
      → o.redshift sql s.world ≡ (done r ms, w')
      → ((after_lookup t o l u digest parse setup query found s).0
          ≡ answer_of t o l u digest parse setup r)
        × ((after_lookup t o l u digest parse setup query found s).1.world ≡ w')
  unfolding after_lookup
  lookup_once query sql none s w' r ms c h q = absurd (cc)
  lookup_once query sql (some v) s w' r ms c h q =
      let e : sql ≡ v = cc in run_once query v _ w' r ms h (rw (← e) q)

  hit_once :
      (query sql : Text) (s : State t o l) (w' : o.World) (r : Result t) (ms : ℕ)
      → (l.get (key digest u query) s.cache.inner).0 ≡ some sql
      → 0 < rounds setup.cfg.max_attempts
      → o.redshift sql s.world ≡ (done r ms, w')
      → ((on_redshift t o l u digest parse setup query s).0
          ≡ answer_of t o l u digest parse setup r)
        × ((on_redshift t o l u digest parse setup query s).1.world ≡ w')
  unfolding on_redshift
  hit_once query sql s w' r ms c h q =
      lookup_once query sql (cache_get l (key digest u query) s.cache).0 _ w' r ms
        (unfold cache_get in c) h q

  -- What the cache holds for a query
  abbrev pub cached_sql : Text → State t o l → Text
  cached_sql query s = text_or_empty (l.get (key digest u query) s.cache.inner).0

  cached_sql-some :
      (query sql : Text) (s : State t o l)
      → (l.get (key digest u query) s.cache.inner).0 ≡ some sql
      → cached_sql query s ≡ sql
  cached_sql-some query sql s e = ap text_or_empty e ∙ (unfold text_or_empty in refl)

  handle-HoldsWinner :
      (query : Text) (s : State t o l) (m : MysqlResult t)
      → IsRedirected query
      → (handle_query t o l u digest parse setup query s).0 ≡ result m
      → HoldsWinner query m (handle_query t o l u digest parse setup query s).1
  handle-HoldsWinner query s m a =
      subst (λ p. p.0 ≡ result m → HoldsWinner query m p.1) (sym (redirected query s a))
        (redshift-HoldsWinner query s m)

  -- After a query that Redshift has answered, a second query with the same key is answered by the SQL that
  -- answered the first one, whatever the second one asks: the SQL in the cache gave the first answer, and if
  -- Redshift runs it in the world that the second query meets, its rows are the second answer and the world
  -- behind it is the one behind that run, so that the agent was not asked. At least one attempt is allowed,
  -- and both queries are sent to Redshift.
  pub repeated_query :
      (first second : Text) (s : State t o l) (m : MysqlResult t) (w w' : o.World) (r : Result t)
      (ms : ℕ)
      → IsRedirected first
      → IsRedirected second
      → key digest u first ≡ key digest u second
      → 0 < rounds setup.cfg.max_attempts
      → (handle_query t o l u digest parse setup first s).0 ≡ result m
      → let s' : State t o l = record (handle_query t o l u digest parse setup first s).1 {
        world = w;
      } in
        o.redshift (cached_sql second s') w ≡ (done r ms, w')
        → Gave (cached_sql second s') m
          × ((handle_query t o l u digest parse setup second s').0
              ≡ answer_of t o l u digest parse setup r)
          × ((handle_query t o l u digest parse setup second s').1.world ≡ w')
  repeated_query first second s m w w' r ms a b k h p q =
      let s' : State t o l = record (handle_query t o l u digest parse setup first s).1 {
        world = w;
      } in
      let (sql, c, gave) = handle-HoldsWinner first s m a p in
      let held : (l.get (key digest u second) s'.cache.inner).0 ≡ some sql =
        subst (λ x. (l.get x s'.cache.inner).0 ≡ some sql) k c in
      let e : cached_sql second s' ≡ sql = cached_sql-some second sql s' held in
      let (answered, moved) = hit_once second sql s' w' r ms held h (rw (← e) q) in
      let again = redirected second s' b in
      (
        subst (λ x. Gave x m) (sym e) gave,
        ap (λ x. x.0) again ∙ answered,
        ap (λ x. x.1.world) again ∙ moved,
      )
