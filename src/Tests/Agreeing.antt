-- ===== src/Tests/Agreeing.antt =====
-- The proxy in front of the agent, in a session of two statements, and the theorems at it.
use mysql_redshift_agent.Prelude.{
  ◌∷◌, ℕ, zero, suc, ◌+◌, ◌<◌, ◌≡◌, refl, ap, Bool, true, false, none, some, [], All, length, take,
  length-take, ==_iff, ◌==◌, ltb, if◌then◌else◌, arith,
}
use mysql_redshift_agent.Text.{Text, codes}
use mysql_redshift_agent.Delivery.{answered, answer_lost}
use mysql_redshift_agent.Knowledge.History.{empty_table}
use mysql_redshift_agent.Proxy.Values.{built}
use mysql_redshift_agent.Proxy.Client.{Outside, Decoded, decoded, broken, translate}
use mysql_redshift_agent.Proxy.Saves.{worker}
use mysql_redshift_agent.Proxy.Server.{State, first_request, handle_query}
use mysql_redshift_agent.Proxy.Agent.{Json, Course, with_agent}
use mysql_redshift_agent.Proxy.Cached.{IsKept}
use mysql_redshift_agent.Proxy.Connections.{Place, arrived, move, here, Reach, stepped, connected}
use mysql_redshift_agent.Proxy.Connections
use mysql_redshift_agent.Proxy.Agreed.{IsAgreed, IsClean, translate-IsAgreed, Reach-IsClean}
use mysql_redshift_agent.Tests.Fixtures
use mysql_redshift_agent.Tests.Fixtures.{by_length, never, documents}
use mysql_redshift_agent.Tests.Serving.{model}
use mysql_redshift_agent.Tests.LruMap.{lru, find}
use mysql_redshift_agent.Tests.Proxying.{
  ascii, plain, as_is, parse_t, open_setup, run_sql, one, response,
}

-- The SQL of a body that begins with its length
abbrev whole : Bool → Text → Decoded
whole true s = decoded (response s)
whole false s = broken (codes "unexpected end of JSON input")

abbrev decode_sized : Text → Decoded
decode_sized [] = broken (codes "unexpected end of JSON input")
decode_sized (n ∷ s) = whole (length s == n) s

shorter : (n : ℕ) (s : Text) → n < length s → (length (take n s) == length s) ≡ false
shorter n s h = ground (arith, length-take n s)

cut_body :
    (s : Text) (n : ℕ)
    → n < length (length s ∷ s)
    → (e : Text) × (decode_sized (take n (length s ∷ s)) ≡ broken e)
cut_body s zero h = (_, refl)
cut_body s (suc n) h = (_, ap (λ x. whole x (take n s)) (shorter n s (omega (arith, h))))

whole_body : (s : Text) → decode_sized (length s ∷ s) ≡ decoded (response s)
whole_body s = ap (λ x. whole x s) ((==_iff (length s) (length s)).1 refl)

-- A body that is the SQL behind its length
abbrev sql_body : Json ℕ
sql_body = record {
  body = λ r. length r.redshift_sql ∷ r.redshift_sql;
  detail_body = λ s. s;
  decode = decode_sized;
  view = λ r. response r.redshift_sql;
  decode_body = λ r. whole_body r.redshift_sql;
  decode_cut = λ r. cut_body r.redshift_sql;
  view_sql = λ r. refl;
}

-- The answers of the first two calls arrive.
abbrev course : ℕ → Course × ℕ
course n = (
  record {
    fails = never;
    now = n;
    latency_ms = 3;
    delivery = if ltb n 2 then answered else answer_lost;
    cut_at = none;
    error = codes "timeout";
  },
  n + 1,
)

abbrev system : Outside plain
system =
    with_agent by_length Fixtures.ascii documents Fixtures.config model sql_body plain ℕ run_sql
      run_sql course (λ columns rows. built rows)

abbrev fresh : State plain system lru
fresh = record {
  cache = record { inner = (1023, []); hit = 0; miss = 0 };
  queue = [];
  world = (empty_table by_length Fixtures.ascii Fixtures.config, 0);
}

abbrev after : Text → State plain system lru → State plain system lru
after q s = (handle_query plain system lru ascii as_is parse_t open_setup q s).1

abbrev posted_state : State plain system lru → State plain system lru
posted_state s = record s {
  queue = (worker plain system s.queue s.world).0;
  world = (worker plain system s.queue s.world).1;
}

translate-IsAgreed_example :
    IsAgreed by_length Fixtures.ascii documents Fixtures.config model sql_body plain ℕ run_sql
      run_sql course
      (λ columns rows. built rows)
      (first_request one)
      fresh.world.0
      (course 0).0
      (translate plain system (first_request one) fresh.world).0
translate-IsAgreed_example =
    translate-IsAgreed by_length Fixtures.ascii documents Fixtures.config model sql_body plain ℕ
      run_sql run_sql course (λ columns rows. built rows) (first_request one) fresh.world

fresh-IsKept : IsKept plain system lru ascii as_is fresh
fresh-IsKept = record {
  origins = λ k v e. absurd (unfold find in cc e);
  bounded = omega arith;
  samples = tt;
}

-- The first step of the first statement, behind the routing
abbrev routed : Place plain × State plain system lru
routed = move plain system lru ascii as_is parse_t open_setup (arrived one) fresh

reached : Reach plain system lru ascii as_is parse_t open_setup fresh [] routed.1 (routed.0 ∷ [])
reached = stepped (connected one Connections.begun) (here (arrived one) [])

Reach-IsClean_example :
    ((k v : Text)
      → (lru.get k routed.1.cache.inner).0 ≡ some v
      → IsClean by_length Fixtures.ascii documents Fixtures.config model sql_body plain ℕ run_sql
          run_sql course
          (λ columns rows. built rows)
          v)
    × All
        (λ req.
          IsClean by_length Fixtures.ascii documents Fixtures.config model sql_body plain ℕ run_sql
            run_sql course
            (λ columns rows. built rows)
            req.redshift_sql)
        routed.1.queue
Reach-IsClean_example =
    Reach-IsClean by_length Fixtures.ascii documents Fixtures.config model sql_body plain ℕ run_sql
      run_sql course (λ columns rows. built rows) lru ascii as_is parse_t open_setup reached
      fresh-IsKept tt
