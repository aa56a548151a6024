-- ===== src/Web/Forward.antt =====
-- The routes of webui/app.py that forward to the agent, over the agent's knowledge base.
use mysql_redshift_agent.Prelude.{ℕ, Bool, Option, none, some, List, ◌++◌}
use mysql_redshift_agent.Text.{Text, Unicode, codes}
use mysql_redshift_agent.Value.{Runtime}
use mysql_redshift_agent.Delivery.{Delivery, answered, answer_lost, not_sent}
use mysql_redshift_agent.Rules.{Directory}
use mysql_redshift_agent.Knowledge.Table.{Entry, Table, Backend}
use mysql_redshift_agent.Knowledge.Store.{Config, Faults}
use mysql_redshift_agent.Service.Translate.{Response, ok, http}
use mysql_redshift_agent.Service.Import.{ImportTestReq, ImportTestResp, Environment, import_test}
use mysql_redshift_agent.Service.Manage.{knowledge_list, knowledge_delete}

-- One call of the agent: how it goes, and the text of the exception if there is one, which is also
-- raised for the status 500 of an endpoint that raised.
pub record Call : Type 0 where
  pub delivery : Delivery
  pub error : Text

-- f"agent error: {e}"
unfoldable pub agent_error : Text → Text
agent_error e = codes "agent error: " ++ e

unfoldable pub answer_or_502 : {A : Type 0} → Text → Option A → Response A
answer_or_502 e none = http 502 (agent_error e)
answer_or_502 e (some a) = ok a

module _ {A S : Type 0} where
  -- The call, `raise_for_status`, `r.json()`, and the status 502 for an exception. `none` is an endpoint
  -- that raised.
  unfoldable pub forward : Text → Delivery → (S → Option A × S) → S → Response A × S
  unfolding answer_or_502
  forward e not_sent endpoint s = (answer_or_502 e none, s)
  forward e answer_lost endpoint s = (answer_or_502 e none, (endpoint s).1)
  forward e answered endpoint s = (answer_or_502 e (endpoint s).0, (endpoint s).1)

module _ (b : Backend) (u : Unicode) (c : Config b.Score) where
  unfoldable pub api_knowledge_list :
      Call
      → Faults
      → ℕ
      → ℕ
      → Text
      → Table b.Vector
      → Response (ℕ × List (Entry b.Vector)) × Table b.Vector
  api_knowledge_list call fails limit offset search =
      forward call.error call.delivery (λ t. (knowledge_list b u c fails limit offset search t, t))

  -- The agent's deletion, with the table that it leaves.
  unfoldable pub deletion :
      Table b.Vector → Option (Bool × Table b.Vector) → Option Bool × Table b.Vector
  deletion t none = (none, t)
  deletion t (some (done, t')) = (some done, t')

  unfoldable pub api_knowledge_delete :
      Call → Faults → ℕ → Table b.Vector → Response Bool × Table b.Vector
  api_knowledge_delete call fails entry_id =
      forward call.error call.delivery (λ t. deletion t (knowledge_delete b u c fails entry_id t))

  unfoldable pub api_knowledge_import_test :
      (r : Runtime)
      → Directory
      → Call
      → Environment r
      → ImportTestReq
      → Table b.Vector
      → Response (ImportTestResp r) × Table b.Vector
  api_knowledge_import_test r dir call env req =
      forward call.error call.delivery (import_test r b u dir c env req)
