-- ===== src/Web/Explaining.antt =====
-- An explanation through the proxy, from the console to the model's reply.
use mysql_redshift_agent.Prelude.{
  ℕ, ◌≡◌, ◌≢◌, ◌⊎◌, refl, ap, ◌∙◌, inl, inr, arith, true, false, Option, none, some, [], ◌∷◌,
}
use mysql_redshift_agent.Text.{Text, Unicode}
use mysql_redshift_agent.Text.Strip.{IsStripped}
use mysql_redshift_agent.Value.{Runtime}
use mysql_redshift_agent.Delivery.{Delivery, answered, answer_lost, not_sent}
use mysql_redshift_agent.Extract.{is_untranslatable}
use mysql_redshift_agent.Knowledge.Store.{is_empty}
use mysql_redshift_agent.Service.Translate.{
  Response, ok, http, TranslateResp, truthy, text_or_empty, clean_request,
}
use mysql_redshift_agent.Service.Translated.{translate-ok}
use mysql_redshift_agent.Web.Run.{Display, explain_redshift}
use mysql_redshift_agent.Web.Handlers.{
  AgentAnswer, QueryReq, ExplainResp, Servers, proxy_source, source_of, clean_source,
  translate_call, explained, explain_resp, explain_translated, explain_on, api_explain,
}
use mysql_redshift_agent.Web.Translating.{answer_of, Agent, translation, post_translate, with_agent}

module _ (r : Runtime) (s : Display r) (max_rows : ℕ) (u : Unicode) (servers : Servers r)
    (a : Agent) where
  -- Why there is nothing to explain.
  pub data Untranslated (d : Delivery) (sql : Text) : Type 0 where
    lost : d ≢ answered → Untranslated d sql
    refused :
        (status : ℕ) (detail : Text) → translation u a sql ≡ http status detail → Untranslated d sql
    blank :
        (x : TranslateResp a.backend.Score)
        → translation u a sql ≡ ok x
        → x.redshift_sql ≡ []
        → Untranslated d sql

  -- The plan of the translation, or an error.
  pub data Ends (d : Delivery) (src sql : Text) (response : Response ExplainResp) : Type 0 where
    planned :
        (x : TranslateResp a.backend.Score)
        → translation u a sql ≡ ok x
        → IsStripped x.redshift_sql
        → is_untranslatable u x.redshift_sql ≡ false
        → response
          ≡ explain_resp src
              (some x.redshift_sql)
              (some x.latency_ms)
              (explain_redshift r s max_rows (servers.redshift (explained x.redshift_sql)))
        → Ends d src sql response
    untranslated :
        Untranslated d sql
        → (resp : ExplainResp) → response ≡ ok resp
        → resp.plan ≡ []
        → ¬ (resp.error ≡ none)
        → Ends d src sql response

  -- The branch of the proxy on what `_translate` returned.
  explain_pair : Text → Option Text × Option ℕ → Response ExplainResp
  explain_pair src p = explain_resp src p.0 p.1 (explain_translated r s u max_rows servers p.0)

  no_translation :
      (d : Delivery) (src sql : Text) (tr : Option Text) (ms : Option ℕ)
      → truthy tr ≡ false
      → Untranslated d sql
      → Ends d src sql (explain_pair src (tr, ms))
  unfolding explain_pair explain_translated explain_resp
  no_translation d src sql tr ms e why =
      rw (explain_translated, e) (untranslated why _ refl refl (λ e'. cc))

  blank_or_text : (t : Text) → (t ≡ []) ⊎ (truthy (some t) ≡ true)
  unfolding truthy
  blank_or_text [] = inl refl
  blank_or_text (c ∷ t) = inr refl

  error_status :
      (status : ℕ) → translate_call (AgentAnswer.answered status none none) ≡ (none, none)
  unfolding translate_call
  error_status status = ground arith

  explain_pair_text :
      (src t : Text) (ms : Option ℕ)
      → truthy (some t) ≡ true
      → explain_pair src (some t, ms)
        ≡ explain_resp src
            (some t)
            ms
            (explain_redshift r s max_rows (servers.redshift (explained t)))
  unfolding explain_pair explain_translated text_or_empty
  explain_pair_text src t ms e = rw (explain_translated, e) refl

  nothing : truthy none ≡ false
  unfolding truthy
  nothing = refl

  empty : truthy (some []) ≡ false
  unfolding truthy
  empty = refl

  answer-Ends :
      (d : Delivery) (src sql : Text) (x : Response (TranslateResp a.backend.Score))
      → translation u a sql ≡ x
      → Ends d src sql (explain_pair src (translate_call (answer_of x)))
  unfolding answer_of translate_call translation
  answer-Ends d src sql (http status detail) e =
      rw (error_status status)
        (no_translation d src sql none none nothing (refused status detail e))
  answer-Ends d src sql (ok x) e = elim (blank_or_text x.redshift_sql) [
    | inl q ↦
        no_translation d src sql (some x.redshift_sql) (some x.latency_ms)
          (ap (λ t. truthy (some t)) q ∙ empty) (blank x e q)
    | inr q ↦
        let (stripped, plain) =
          translate-ok a.backend u a.directory a.config a.ask a.fails a.now a.latency_ms _ a.table x
            e in
        planned x e stripped plain (explain_pair_text src x.redshift_sql (some x.latency_ms) q)
  ]

  unreachable-Ends :
      (d : Delivery) (src sql : Text)
      → d ≢ answered
      → Ends d src sql (explain_pair src (translate_call AgentAnswer.unreachable))
  unfolding translate_call
  unreachable-Ends d src sql ne = no_translation d src sql none none nothing (lost ne)

  post_translate-Ends :
      (d : Delivery) (src sql : Text)
      → Ends d src sql (explain_pair src (translate_call (post_translate u a d sql)))
  unfolding post_translate
  post_translate-Ends answered src sql = answer-Ends answered src sql (translation u a sql) refl
  post_translate-Ends answer_lost src sql = unreachable-Ends answer_lost src sql (λ e. absurd (cc))
  post_translate-Ends not_sent src sql = unreachable-Ends not_sent src sql (λ e. absurd (cc))

  -- An explanation of a statement that is not empty, on the source proxy, with the agent's endpoint behind
  -- the console, ends in one of two ways. The agent translated the statement, the translation is stripped
  -- and no UNTRANSLATABLE marker, and the answer is the plan that Redshift gives for it, or the text of
  -- the exception. Or the answer is an error with no plan, since the agent's answer was lost, or the
  -- agent answered with an error or with an empty text.
  pub api_explain-Ends :
      (d : Delivery) (req : QueryReq)
      → is_empty (clean_request req.sql) ≡ false
      → source_of (clean_source u req.source) ≡ proxy_source
      → Ends d
          (clean_source u req.source)
          (clean_request req.sql)
          (api_explain r s u max_rows (with_agent u a d servers) req)
  unfolding api_explain explain_on explain_pair explain_translated
  api_explain-Ends d req filled proxied =
      rw (filled, proxied)
        (post_translate-Ends d (clean_source u req.source) (clean_request req.sql))
