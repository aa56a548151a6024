-- ===== src/Web/Translating.antt =====
-- `_translate` of webui/app.py over the agent's endpoint `translate`.
use mysql_redshift_agent.Prelude.{ℕ, none, some}
use mysql_redshift_agent.Text.{Text, Unicode}
use mysql_redshift_agent.Delivery.{Delivery, answered, answer_lost, not_sent}
use mysql_redshift_agent.Rules.{Directory}
use mysql_redshift_agent.Value.{Runtime}
use mysql_redshift_agent.Knowledge.Table.{Table, Backend}
use mysql_redshift_agent.Knowledge.Store.{Config, Faults}
use mysql_redshift_agent.Service.Translate.{
  Response, ok, http, Reply, TranslateReq, TranslateResp, translate,
}
use mysql_redshift_agent.Web.Handlers.{AgentAnswer, unreachable, Servers}

-- The status of the response, and two fields of its JSON; an error has neither.
unfoldable pub answer_of : {Score : Type 0} → Response (TranslateResp Score) → AgentAnswer
answer_of (ok tr) = AgentAnswer.answered 200 (some tr.redshift_sql) (some tr.latency_ms)
answer_of (http status detail) = AgentAnswer.answered status none none

-- The body that is posted.
abbrev pub plain_request : Text → TranslateReq
plain_request sql = record { sql = sql; prev_error = none; prev_sql = none }

-- What the agent has at the time of the call.
pub record Agent : Type 1 where
  pub backend : Backend
  pub directory : Directory
  pub config : Config backend.Score
  pub ask : Text → Reply
  pub fails : Faults
  pub now : ℕ
  pub latency_ms : ℕ
  pub table : Table backend.Vector

unfoldable pub translation :
    (u : Unicode) (a : Agent) → Text → Response (TranslateResp a.backend.Score)
translation u a sql =
    (translate a.backend u a.directory a.config a.ask a.fails a.now a.latency_ms (plain_request sql)
      a.table).0

-- A post whose answer is lost has raised, like one that was not sent.
unfoldable pub post_translate : Unicode → Agent → Delivery → Text → AgentAnswer
post_translate u a answered sql = answer_of (translation u a sql)
post_translate u a answer_lost sql = unreachable
post_translate u a not_sent sql = unreachable

-- The console with this agent.
abbrev pub with_agent : {r : Runtime} → Unicode → Agent → Delivery → Servers r → Servers r
with_agent u a d servers = record servers { agent = post_translate u a d }
