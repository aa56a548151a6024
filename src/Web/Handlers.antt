-- ===== src/Web/Handlers.antt =====
-- `_translate`, `api_query` and `api_explain` of webui/app.py.
use mysql_redshift_agent.Prelude.{
  ℕ, Bool, false, Option, none, some, List, [], ◌++◌, ◌==◌, if◌then◌else◌,
}
use mysql_redshift_agent.Text.{Text, Unicode, codes, strip, lower, text_eq}
use mysql_redshift_agent.Value.{Runtime, Normal}
use mysql_redshift_agent.Knowledge.Store.{is_empty}
use mysql_redshift_agent.Service.Translate.{
  Response, ok, http, truthy, text_or_empty, clean_request,
}
use mysql_redshift_agent.Driver.{Executed, fetched, raised}
use mysql_redshift_agent.Web.Run.{
  Display, Planned, planned, failed, collect, explain_mysql, explain_redshift,
}

pub record QueryReq : Type 0 where
  pub source : Text
  pub sql : Text

pub record QueryResp (r : Runtime) : Type 0 where
  pub source : Text
  pub columns : List Text
  pub rows : List (List (Normal r))
  pub row_count : ℕ
  pub latency_ms : ℕ
  pub truncated : Bool
  pub translated_sql : Option Text
  pub translate_ms : Option ℕ
  pub error : Option Text

pub record ExplainResp : Type 0 where
  pub source : Text
  pub plan : List Text
  pub latency_ms : ℕ
  pub translated_sql : Option Text
  pub translate_ms : Option ℕ
  pub error : Option Text

-- What the call of the agent gives: an exception, or a status with two fields of the JSON.
pub data AgentAnswer : Type 0 where
  unreachable : AgentAnswer
  answered : ℕ → Option Text → Option ℕ → AgentAnswer

unfoldable pub translate_call : AgentAnswer → Option Text × Option ℕ
translate_call unreachable = (none, none)
translate_call (answered status sql ms) = if status == 200 then (sql, ms) else (none, none)

-- What the three servers do with a statement, and what the agent answers.
pub record Servers (r : Runtime) : Type 0 where
  pub aurora : Text → Executed r
  pub redshift : Text → Executed r
  pub proxy : Text → Executed r
  pub agent : Text → AgentAnswer

pub data Source : Type 0 where
  mysql_source redshift_source proxy_source unknown : Source

-- The tests on `src`, in order.
unfoldable pub source_of : Text → Source
source_of src =
    if text_eq src (codes "mysql")
    then mysql_source
    else if text_eq src (codes "redshift")
    then redshift_source
    else if text_eq src (codes "proxy")
    then proxy_source
    else unknown

-- `req.source.lower().strip()`
unfoldable pub clean_source : Unicode → Text → Text
clean_source u source = strip (lower u source)

-- f"{type(e).__name__}: {e}"
unfoldable pub error_text : Text → Text → Text
error_text kind message = kind ++ codes ": " ++ message

unfoldable pub unknown_source : Text → Text
unknown_source src = codes "unknown source: " ++ src

-- The statement of an `_explain` function.
unfoldable pub explained : Text → Text
explained sql = codes "EXPLAIN " ++ sql

unfoldable pub explain_resp : Text → Option Text → Option ℕ → Planned → Response ExplainResp
explain_resp src translated_sql translate_ms (failed kind message) = ok (record {
  source = src;
  plan = [];
  latency_ms = 0;
  translated_sql = translated_sql;
  translate_ms = translate_ms;
  error = some (error_text kind message);
})
explain_resp src translated_sql translate_ms (planned lines ms) = ok (record {
  source = src;
  plan = lines;
  latency_ms = ms;
  translated_sql = translated_sql;
  translate_ms = translate_ms;
  error = none;
})

module _ (r : Runtime) (s : Display r) (u : Unicode) (max_rows : ℕ) (servers : Servers r) where
  unfoldable pub query_resp : Text → Option Text → Option ℕ → Executed r → Response (QueryResp r)
  query_resp src translated_sql translate_ms (raised kind message) = ok (record {
    source = src;
    columns = [];
    rows = [];
    row_count = 0;
    latency_ms = 0;
    truncated = false;
    translated_sql = translated_sql;
    translate_ms = translate_ms;
    error = some (error_text kind message);
  })
  query_resp src translated_sql translate_ms (fetched cur) =
      let out = collect r s max_rows cur in
      ok (record {
        source = src;
        columns = out.columns;
        rows = out.rows;
        row_count = out.row_count;
        latency_ms = out.latency_ms;
        truncated = out.truncated;
        translated_sql = translated_sql;
        translate_ms = translate_ms;
        error = none;
      })

  -- The branches of `api_query` on the source.
  unfoldable pub query_on : Text → Text → Source → Response (QueryResp r)
  query_on src sql mysql_source = query_resp src none none (servers.aurora sql)
  query_on src sql redshift_source = query_resp src none none (servers.redshift sql)
  query_on src sql proxy_source =
      let (translated_sql, translate_ms) = translate_call (servers.agent sql) in
      query_resp src translated_sql translate_ms (servers.proxy sql)
  query_on src sql unknown = http 400 (unknown_source src)

  unfoldable pub api_query : QueryReq → Response (QueryResp r)
  api_query req =
      if is_empty (clean_request req.sql)
      then http 400 (codes "sql is empty")
      else query_on (clean_source u req.source) (clean_request req.sql)
          (source_of (clean_source u req.source))

  -- The plan of a translated statement; without a translation nothing is run.
  unfoldable pub explain_translated : Option Text → Planned
  explain_translated translated_sql =
      if truthy translated_sql
      then explain_redshift r s max_rows
          (servers.redshift (explained (text_or_empty translated_sql)))
      else failed (codes "RuntimeError")
          (codes "translate failed (agent unreachable or returned empty)")

  -- The branches of `api_explain` on the source.
  unfoldable pub explain_on : Text → Text → Source → Response ExplainResp
  explain_on src sql mysql_source =
      explain_resp src none none (explain_mysql r s max_rows (servers.aurora (explained sql)))
  explain_on src sql redshift_source =
      explain_resp src none none (explain_redshift r s max_rows (servers.redshift (explained sql)))
  explain_on src sql proxy_source =
      let (translated_sql, translate_ms) = translate_call (servers.agent sql) in
      explain_resp src translated_sql translate_ms (explain_translated translated_sql)
  explain_on src sql unknown = http 400 (unknown_source src)

  unfoldable pub api_explain : QueryReq → Response ExplainResp
  api_explain req =
      if is_empty (clean_request req.sql)
      then http 400 (codes "sql is empty")
      else explain_on (clean_source u req.source) (clean_request req.sql)
          (source_of (clean_source u req.source))
