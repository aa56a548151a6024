-- ===== src/Proxy/Agent.antt =====
-- The proxy in front of the agent of agent/app.py: the bodies of its posts as the agent reads them, and the
-- agent's knowledge base as a part of the world. How JSON is written and read is a parameter.
use mysql_redshift_agent.Prelude.{
  ℕ, zero, suc, ◌<◌, ◌≡◌, Option, none, some, [], ◌∷◌, length, take, ltb, if◌then◌else◌,
}
use mysql_redshift_agent.Text.{Text, Unicode, codes}
use mysql_redshift_agent.Value.{ℤ, pos}
use mysql_redshift_agent.Delivery.{Delivery, answered, answer_lost, not_sent}
use mysql_redshift_agent.Rules.{Directory}
use mysql_redshift_agent.Knowledge.Table.{Table, Backend, Draft}
use mysql_redshift_agent.Knowledge.Store.{Config, Faults}
use mysql_redshift_agent.Service.Translate
use mysql_redshift_agent.Service.Translate.{TranslateReq, TranslateResp, Response, Reply, ok, http}
use mysql_redshift_agent.Service.Manage.{save_example_endpoint}
use mysql_redshift_agent.Proxy.Values.{Types, Build}
use mysql_redshift_agent.Proxy.Client.{
  TranslateRequest, TranslateResponse, SaveReq, Executed, Posted, Decoded, decoded, unreachable,
  Outside, broken,
}

-- `json:",omitempty"` and a field that is optional
unfoldable pub omitted : Text → Option Text
omitted [] = none
omitted (c ∷ s) = some (c ∷ s)

-- The body of a post to /translate
unfoldable pub to_agent : TranslateRequest → TranslateReq
unfolding omitted
to_agent req = record {
  sql = req.sql;
  prev_error = omitted req.prev_error;
  prev_sql = omitted req.prev_sql;
}

unfoldable pub omitted_zero : ℕ → Option ℤ
omitted_zero zero = none
omitted_zero (suc n) = some (pos (suc n))

unfoldable pub omitted_or : Text → Text → Text
omitted_or [] default = default
omitted_or (c ∷ s) default = c ∷ s

-- The body of a post to /save_example
unfoldable pub draft_of : SaveReq → Draft
unfolding omitted_zero omitted_or
draft_of req = record {
  mysql_sql = req.mysql_sql;
  redshift_sql = req.redshift_sql;
  used_rules = req.used_rules;
  row_count = omitted_zero req.row_count;
  mysql_ms = omitted_zero req.mysql_ms;
  redshift_ms = omitted_zero req.redshift_ms;
  compare_mode = omitted_or req.compare_mode (codes "strict");
  source = omitted_or req.source (codes "runtime");
}

-- JSON: what the agent writes, and what the proxy reads of a translation
pub record Json (Score : Type 0) : Type 0 where
  pub body : TranslateResp Score → Text
  pub detail_body : Text → Text
  pub decode : Text → Decoded
  pub view : TranslateResp Score → TranslateResponse
  pub decode_body : (r : TranslateResp Score) → decode (body r) ≡ decoded (view r)
  -- No prefix of a JSON object is JSON.
  pub decode_cut :
      (r : TranslateResp Score) (n : ℕ)
      → n < length (body r)
      → (e : Text) × (decode (take n (body r)) ≡ broken e)
  pub view_sql : (r : TranslateResp Score) → (view r).redshift_sql ≡ r.redshift_sql

-- How a call of the agent goes: what fails there, the times, whether the answer arrives, and, where its
-- body is cut short, how much of that is read
pub record Course : Type 0 where
  pub fails : Faults
  pub now : ℕ
  pub latency_ms : ℕ
  pub delivery : Delivery
  pub cut_at : Option ℕ
  pub error : Text

-- `data, _ := io.ReadAll(resp.Body)`: what is read of the body, whose error is ignored
unfoldable pub read_all : Option ℕ → Text → Text
read_all none body = body
read_all (some n) body = if ltb n (length body) then take n body else body

module _ (b : Backend) (u : Unicode) (dir : Directory) (c : Config b.Score) (ask : Text → Reply)
    (j : Json b.Score) where
  unfoldable pub posted_of : Option ℕ → Response (TranslateResp b.Score) → Posted
  unfolding read_all
  posted_of cut (ok r) = Posted.answered 200 (read_all cut (j.body r))
  posted_of cut (http status detail) = Posted.answered status (read_all cut (j.detail_body detail))

  -- A post to /translate by its delivery
  unfoldable pub delivered :
      Delivery
      → Option ℕ
      → Text
      → Response (TranslateResp b.Score) × Table b.Vector
      → Table b.Vector
      → Posted × Table b.Vector
  unfolding posted_of
  delivered not_sent cut e after t = (unreachable e, t)
  delivered answer_lost cut e after t = (unreachable e, after.1)
  delivered answered cut e after t = (posted_of cut after.0, after.1)

  unfoldable pub post_to_agent :
      Course → TranslateRequest → Table b.Vector → Posted × Table b.Vector
  unfolding delivered
  post_to_agent k req t =
      delivered k.delivery k.cut_at k.error
        (Translate.translate b u dir c ask k.fails k.now k.latency_ms (to_agent req) t) t

  unfoldable pub saved_by : Delivery → Table b.Vector → Table b.Vector → Table b.Vector
  saved_by not_sent after t = t
  saved_by answer_lost after t = after
  saved_by answered after t = after

  -- A post to /save_example
  unfoldable pub save_at_agent : Course → SaveReq → Table b.Vector → Table b.Vector
  unfolding saved_by
  save_at_agent k req t =
      saved_by k.delivery (save_example_endpoint b u c k.fails k.now (draft_of req) t).1 t

  module _ (t : Types) (W : Type 0) (redshift mysql : Text → W → Executed t × W)
      (course : W → Course × W) (build : Build t) where
    -- The world: the knowledge base, and the rest, which says how a call of the agent goes
    abbrev pub with_agent : Outside t
    with_agent = record {
      World = Table b.Vector × W;
      redshift = λ sql w. let (run, rest) = redshift sql w.1 in (run, (w.0, rest));
      mysql = λ sql w. let (run, rest) = mysql sql w.1 in (run, (w.0, rest));
      post =
          λ req w. let (p, t') = post_to_agent (course w.1).0 req w.0 in (p, (t', (course w.1).1));
      decode = j.decode;
      save = λ req w. (save_at_agent (course w.1).0 req w.0, (course w.1).1);
      build = build;
    }
