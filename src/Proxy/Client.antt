-- ===== src/Proxy/Client.antt =====
-- What the proxy reaches: Redshift, MySQL and the agent, each of which may answer differently at each call;
-- and the client of the agent of proxy/internal/convertor_client/client.go.
use mysql_redshift_agent.Prelude.{ℕ, List, leb, if◌then◌else◌}
use mysql_redshift_agent.Text.{Text}
use mysql_redshift_agent.Proxy.Values.{Types, Result, Build}
use mysql_redshift_agent.Value.{ℤ}

-- An empty `prev_error` or `prev_sql` is left out of the body.
pub record TranslateRequest : Type 0 where
  pub sql : Text
  pub prev_error : Text
  pub prev_sql : Text

pub record TranslateResponse : Type 0 where
  pub redshift_sql : Text
  pub used_rules : List Text
  pub latency_ms : ℤ
  pub attempt : Text

-- `knowledge.SaveReq`
pub record SaveReq : Type 0 where
  pub mysql_sql : Text
  pub redshift_sql : Text
  pub used_rules : List Text
  pub row_count : ℕ
  pub mysql_ms : ℕ
  pub redshift_ms : ℕ
  pub compare_mode : Text
  pub source : Text

-- `ExecSelect` with the milliseconds that it took
pub data Executed (t : Types) : Type 0 where
  done : Result t → ℕ → Executed t
  failed : Text → Executed t

-- A POST to /translate: no request could be made, no answer came, or its status and its body.
pub data Posted : Type 0 where
  not_made : Text → Posted
  unreachable : Text → Posted
  answered : ℕ → Text → Posted

-- `json.Unmarshal` of the body
pub data Decoded : Type 0 where
  decoded : TranslateResponse → Decoded
  broken : Text → Decoded

pub record Outside (t : Types) : Type 1 where
  pub World : Type 0
  pub redshift : Text → World → Executed t × World
  pub mysql : Text → World → Executed t × World
  pub post : TranslateRequest → World → Posted × World
  pub decode : Text → Decoded
  -- `save` of a knowledge client, whose errors its worker logs at most
  pub save : SaveReq → World → World
  pub build : Build t

-- The errors of `Translate`
pub data ClientError : Type 0 where
  no_request : Text → ClientError
  http_call_failed : Text → ClientError
  agent_returned : ℕ → Text → ClientError
  decode_failed : Text → Text → ClientError

pub data Translated : Type 0 where
  translated : TranslateResponse → Translated
  refused : ClientError → Translated

unfoldable pub read_body : Text → Decoded → Translated
read_body body (decoded r) = translated r
read_body body (broken e) = refused (decode_failed e body)

module _ (t : Types) (o : Outside t) where
  unfoldable pub read_answer : Posted → Translated
  unfolding read_body
  read_answer (not_made e) = refused (no_request e)
  read_answer (unreachable e) = refused (http_call_failed e)
  read_answer (answered status body) =
      if leb 400 status
      then refused (agent_returned status body)
      else read_body body (o.decode body)

  -- `Translate`
  unfoldable pub translate : TranslateRequest → o.World → Translated × o.World
  unfolding read_answer
  translate req w = let (posted, w') = o.post req w in (read_answer posted, w')
