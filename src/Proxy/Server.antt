-- ===== src/Proxy/Server.antt =====
-- The handler of a connection of proxy/internal/server/server.go.
use mysql_redshift_agent.Prelude.{
  ℕ, zero, suc, Bool, true, false, ◌&&◌, ◌||◌, not, Option, none, some, List, [], ◌∷◌, length, ltb,
  ◌==◌, if◌then◌else◌,
}
use mysql_redshift_agent.Text.{Text, codes, text_eq, starts_with}
use mysql_redshift_agent.Value.{ℤ, pos, negsuc}
use mysql_redshift_agent.Proxy.GoText.{Unicode, to_lower, trim_space, byte_length}
use mysql_redshift_agent.Proxy.Config.{Config}
use mysql_redshift_agent.Proxy.Router.{Destination, Router, Parsed, route}
use mysql_redshift_agent.Proxy.Normalize.{key}
use mysql_redshift_agent.Proxy.Cache.{Lru, Cache, cache_get, cache_set, inc_hit, inc_miss}
use mysql_redshift_agent.Proxy.Values.{Types, Result, MysqlResult, Built, built, blank, to_mysql}
use mysql_redshift_agent.Proxy.Client.{
  TranslateRequest, SaveReq, Executed, done, failed, Outside, ClientError, Translated, translated,
  refused, translate,
}
use mysql_redshift_agent.Proxy.Saves.{save_async}

-- The errors of `HandleQuery`; the last attempt's error is nil where nothing was attempted.
pub data QueryError : Type 0 where
  mysql_not_configured : List Text → QueryError
  mysql_exec : Text → QueryError
  translate_failed : ClientError → QueryError
  redshift_exec : ℤ → Option Text → QueryError
  no_resultset : Text → QueryError

pub data Answer (t : Types) : Type 0 where
  result : MysqlResult t → Answer t
  error : QueryError → Answer t

-- How `execWithRetry` ends: a result with the SQL that gave it and its time, or the last error.
pub data Retried (t : Types) : Type 0 where
  won : Result t → Text → ℕ → Retried t
  lost : Option Text → Retried t

abbrev pub noop_prefixes : List Text
noop_prefixes =
    codes "set "
    ∷ codes "start transaction"
    ∷ codes "begin"
    ∷ codes "commit"
    ∷ codes "rollback"
    ∷ codes "use "
    ∷ codes "show "
    ∷ []

unfoldable pub has_prefix_of : List Text → Text → Bool
has_prefix_of [] s = false
has_prefix_of (p ∷ ps) s = starts_with p s || has_prefix_of ps s

-- `shouldNoop`
unfoldable pub should_noop : Unicode → Text → Bool
unfolding has_prefix_of
should_noop u q = has_prefix_of noop_prefixes (to_lower u (trim_space q))

-- The rounds of `for attempt := 0; attempt < max; attempt++`
unfoldable pub rounds : ℤ → ℕ
rounds (pos n) = n
rounds (negsuc n) = 0

-- The parts of `Server` that do not change: the configuration, the router, and whether `myExec` and `kb` are
-- there.
pub record Setup : Type 0 where
  pub cfg : Config
  pub router : Router
  pub has_mysql : Bool
  pub has_kb : Bool

-- The request behind an error
unfoldable pub fix_request : Text → Text → Text → TranslateRequest
fix_request sql prev_error prev_sql = record {
  sql = sql;
  prev_error = prev_error;
  prev_sql = prev_sql;
}

-- The first request
unfoldable pub first_request : Text → TranslateRequest
first_request sql = record { sql = sql; prev_error = []; prev_sql = [] }

module _ (t : Types) (o : Outside t) where
  -- Behind the answer of the agent: `next` is the next round.
  unfoldable pub after_fix :
      (Text → Option Text → o.World → Retried t × o.World)
      → Text
      → Translated
      → o.World
      → Retried t × o.World
  after_fix next e (refused x) w = (lost (some e), w)
  after_fix next e (translated resp) w = next resp.redshift_sql (some e) w

  -- Behind an execution, which may have been the last one
  unfoldable pub after_run :
      (Text → Option Text → o.World → Retried t × o.World)
      → Bool
      → Text
      → Text
      → Executed t
      → o.World
      → Retried t × o.World
  unfolding after_fix
  after_run next last original cur (done r ms) w = (won r cur ms, w)
  after_run next true original cur (failed e) w = (lost (some e), w)
  after_run next false original cur (failed e) w =
      let (fix, w') = translate t o (fix_request original e cur) w in after_fix next e fix w'

  -- The loop of `execWithRetry`, over the rounds left
  unfoldable pub exec_loop : ℕ → Text → Text → Option Text → o.World → Retried t × o.World
  unfolding after_run
  exec_loop zero original cur prev_err w = (lost prev_err, w)
  exec_loop (suc n) original cur prev_err w =
      let (run, w') = o.redshift cur w in
      after_run (exec_loop n original) (n == 0) original cur run w'

  -- `execWithRetry`
  unfoldable pub exec_with_retry : ℤ → Text → Text → o.World → Retried t × o.World
  unfolding exec_loop rounds
  exec_with_retry max_attempts original rs_sql w =
      exec_loop (rounds max_attempts) original rs_sql none w

-- What a handler changes: the cache with its counters, the queue of samples, and the world.
pub record State (t : Types) (o : Outside t) (l : Lru) : Type 0 where
  pub cache : Cache l
  pub queue : List SaveReq
  pub world : o.World

module _ (t : Types) (o : Outside t) (l : Lru) (u : Unicode) (digest : Text → Text)
    (parse : Text → Parsed) (setup : Setup) where
  -- `resultmap.ToMySQL(result)` as the answer
  unfoldable pub answer_of : Result t → Answer t
  answer_of r = elim (to_mysql t o.build (some r)) [
    | built x ↦ result x
    | Built.refused e ↦ error (no_resultset e)
  ]

  -- The branch of `HandleQuery` for MySQL
  unfoldable pub on_mysql : Text → List Text → State t o l → Answer t × State t o l
  unfolding answer_of
  on_mysql query tables s =
      let (run, w) = o.mysql query s.world in
      if not setup.has_mysql then (error (mysql_not_configured tables), s) else (
        elim run [ failed e ↦ error (mysql_exec e) | done r ms ↦ answer_of r ],
        record s { world = w },
      )

  -- The sample of a query with a result
  unfoldable pub sample_of : Text → Result t → Text → ℕ → SaveReq
  sample_of query r winning_sql ms = record {
    mysql_sql = query;
    redshift_sql = winning_sql;
    used_rules = [];
    row_count = length r.rows;
    mysql_ms = 0;
    redshift_ms = ms;
    compare_mode = codes "skipped";
    source = codes "runtime";
  }

  -- The samples behind a query
  unfoldable pub saved : Text → Result t → Text → ℕ → List SaveReq → List SaveReq
  unfolding sample_of
  saved query r winning_sql ms queue =
      if setup.has_kb && (ltb 0 (length r.rows) && ltb (byte_length winning_sql) 8000)
      then save_async (sample_of query r winning_sql ms) queue
      else queue

  -- Behind `execWithRetry`
  unfoldable pub after_retries : Text → Text → Retried t → State t o l → Answer t × State t o l
  unfolding saved answer_of
  after_retries query rs_query (lost e) s = (error (redshift_exec setup.cfg.max_attempts e), s)
  after_retries query rs_query (won r winning_sql ms) s = (
    answer_of r,
    record s {
      cache =
          if text_eq winning_sql rs_query
          then s.cache
          else cache_set l (key digest u query) winning_sql s.cache;
      queue = saved query r winning_sql ms s.queue;
    },
  )

  -- What follows the translation
  unfoldable pub run_translated : Text → Text → State t o l → Answer t × State t o l
  unfolding after_retries
  run_translated query rs_query s =
      let (end, w) = exec_with_retry t o setup.cfg.max_attempts query rs_query s.world in
      after_retries query rs_query end (record s { world = w })

  -- Behind the first answer of the agent
  unfoldable pub after_translate : Text → Translated → State t o l → Answer t × State t o l
  unfolding run_translated
  after_translate query (refused e) s = (error (translate_failed e), s)
  after_translate query (translated resp) s =
      run_translated query resp.redshift_sql
        (record s { cache = cache_set l (key digest u query) resp.redshift_sql s.cache })

  -- Behind the look-up in the cache
  unfoldable pub after_lookup : Text → Option Text → State t o l → Answer t × State t o l
  unfolding after_translate run_translated
  after_lookup query (some rs_query) s =
      run_translated query rs_query (record s { cache = inc_hit l s.cache })
  after_lookup query none s =
      let (answer, w) = translate t o (first_request query) s.world in
      after_translate query answer (record s { cache = inc_miss l s.cache; world = w })

  -- The branch of `HandleQuery` for Redshift
  unfoldable pub on_redshift : Text → State t o l → Answer t × State t o l
  unfolding after_lookup
  on_redshift query s =
      let (found, c) = cache_get l (key digest u query) s.cache in
      after_lookup query found (record s { cache = c })

  unfoldable pub dispatch : Destination → List Text → Text → State t o l → Answer t × State t o l
  unfolding on_mysql on_redshift
  dispatch Destination.mysql tables query s = on_mysql query tables s
  dispatch Destination.redshift tables query s = on_redshift query s

  -- `HandleQuery`
  unfoldable pub handle_query : Text → State t o l → Answer t × State t o l
  unfolding dispatch
  handle_query query s =
      let routed = route parse setup.router query in
      if should_noop u query
      then (result blank, s)
      else dispatch routed.destination routed.referenced query s
