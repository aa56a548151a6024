-- ===== src/Service/Translated.antt =====
-- What a translation returns, when it fails, and what it does to the knowledge base.
use mysql_redshift_agent.Prelude.{
  ℕ, ◌≡◌, refl, ap, sym, inl, inr, true, false, List, [], ◌++◌, Bool-cases,
}
use mysql_redshift_agent.Text.{Text, Unicode, codes, strip}
use mysql_redshift_agent.Text.Strip.{IsStripped}
use mysql_redshift_agent.Rules.{Directory}
use mysql_redshift_agent.Extract.{extract_sql, is_untranslatable}
use mysql_redshift_agent.Extract.Keyword.{extract_sql-IsStripped}
use mysql_redshift_agent.Knowledge.Table.{Table, Backend}
use mysql_redshift_agent.Knowledge.Store.{Config, Faults, Hit}
use mysql_redshift_agent.Knowledge.Retrieval.{
  AllCount, ids_of, no_ids-AllCount, retrieve_similar-counts,
}
use mysql_redshift_agent.Service.Translate.{
  TranslateReq, TranslateResp, Response, Reply, ok, http, said, raised, truthy, user_message,
  answer, examples_for, translate, clean_request,
}

-- The two ways in which a translation fails.
pub data Fails (u : Unicode) (reply : Reply) (status : ℕ) (detail : Text) : Type 0 where
  model_raised :
      (e : Text)
      → reply ≡ raised e
      → status ≡ 500
      → detail ≡ codes "agent error: " ++ e
      → Fails u reply status detail
  not_translatable :
      (text : Text)
      → reply ≡ said text
      → status ≡ 422
      → detail ≡ extract_sql u (strip text)
      → is_untranslatable u detail ≡ true
      → Fails u reply status detail

module _ (b : Backend) (u : Unicode) (req : TranslateReq) (hits : List (Hit b.Score)) (ms : ℕ) where
  answer-ok :
      (reply : Reply) (resp : TranslateResp b.Score)
      → answer b u req hits ms reply ≡ ok resp
      → (text : Text) × (resp.redshift_sql ≡ extract_sql u (strip text))
        × (is_untranslatable u (extract_sql u (strip text)) ≡ false)
  unfolding answer
  answer-ok (raised e) resp h = absurd (cc)
  answer-ok (said text) resp h =
      elim (Bool-cases (is_untranslatable u (extract_sql u (strip text)))) [
        | inl e ↦ absurd (cc (rw e at h))
        | inr e ↦ (text, ap sql_of (sym (rw e at h)), e)
      ]
    where
      sql_of : Response (TranslateResp b.Score) → Text
      sql_of (ok x) = x.redshift_sql
      sql_of (http n s) = []

  answer-http :
      (reply : Reply) (status : ℕ) (detail : Text)
      → answer b u req hits ms reply ≡ http status detail
      → Fails u reply status detail
  unfolding answer
  answer-http (raised e) status detail h = model_raised e refl (cc) (cc)
  answer-http (said text) status detail h =
      elim (Bool-cases (is_untranslatable u (extract_sql u (strip text)))) [
        | inr e ↦ absurd (cc (rw e at h))
        | inl e ↦
            let k : ◌≡◌ {A = Response (TranslateResp b.Score)}
                (http 422 (extract_sql u (strip text))) (http status detail) =
              rw e at h in
            let q : extract_sql u (strip text) ≡ detail = cc in
            not_translatable text refl (cc) (sym q) (rw (← q) e)
      ]

module _ (b : Backend) (u : Unicode) (dir : Directory) (c : Config b.Score) (ask : Text → Reply)
    (fails : Faults) (now ms : ℕ) (req : TranslateReq) (t : Table b.Vector) where
  -- The SQL of a successful translation has no white space around it and is no UNTRANSLATABLE marker.
  pub translate-ok :
      (resp : TranslateResp b.Score)
      → (translate b u dir c ask fails now ms req t).0 ≡ ok resp
      → IsStripped resp.redshift_sql × (is_untranslatable u resp.redshift_sql ≡ false)
  unfolding translate
  translate-ok resp h =
      let (text, q, e) = answer-ok b u req _ ms _ resp h in
      (rw q (extract_sql-IsStripped u (strip text)), rw q e)

  -- A translation fails in two ways: with status 500 if the model raised, and with status 422 and the
  -- marker as the detail if the model answered that the statement cannot be translated.
  pub translate-http :
      (status : ℕ) (detail : Text)
      → (translate b u dir c ask fails now ms req t).0 ≡ http status detail
      → Fails u (ask (user_message b u dir req (examples_for b c fails now req t).0)) status detail
  unfolding translate
  translate-http status detail h = answer-http b u req _ ms _ status detail h

  -- A translation counts exactly the examples that it gives to the model, once each, and changes
  -- nothing else of the table's keys and counters; after an error of a previous attempt it gives none.
  pub translate-counts :
      AllCount b
        (ids_of b (examples_for b c fails now req t).0)
        t.rows
        (translate b u dir c ask fails now ms req t).1.rows
      × (truthy req.prev_error ≡ true → (examples_for b c fails now req t).0 ≡ [])
  unfolding translate examples_for
  translate-counts = elim (Bool-cases (truthy req.prev_error)) [
    | inl e ↦ rw e (no_ids-AllCount b t.rows, λ p. refl)
    | inr e ↦ rw e (
      retrieve_similar-counts b c fails now (clean_request req.sql) c.top_k c.threshold t,
      λ p. absurd (cc),
    )
  ]
