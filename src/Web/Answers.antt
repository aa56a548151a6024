-- ===== src/Web/Answers.antt =====
-- What the two handlers of webui/app.py answer.
use mysql_redshift_agent.Prelude.{
  ℕ, ◌≡◌, ◌⊎◌, refl, inl, inr, true, false, Option, none, some, [], Bool-cases,
}
use mysql_redshift_agent.Text.{Text, Unicode, codes}
use mysql_redshift_agent.Value.{Runtime}
use mysql_redshift_agent.Knowledge.Store.{is_empty}
use mysql_redshift_agent.Service.Translate.{Response, ok, http, truthy, clean_request}
use mysql_redshift_agent.Driver.{Cursor, Executed, fetched, raised}
use mysql_redshift_agent.Web.Run.{Display, Planned, planned, failed, collect}
use mysql_redshift_agent.Web.Handlers.{
  QueryReq, QueryResp, ExplainResp, Servers, Source, mysql_source, redshift_source, proxy_source,
  unknown, source_of, clean_source, translate_call, error_text, unknown_source, query_resp,
  query_on, api_query, explain_resp, explain_translated, explain_on, api_explain,
}

module _ (r : Runtime) (s : Display r) (max_rows : ℕ) where
  -- The answer to a run: what the run shows and counts, or no rows and the text of the exception.
  pub data Reports (resp : QueryResp r) : Executed r → Type 0 where
    ran_to_end :
        (cur : Cursor r)
        → resp.error ≡ none
        → resp.columns ≡ (collect r s max_rows cur).columns
        → resp.rows ≡ (collect r s max_rows cur).rows
        → resp.row_count ≡ (collect r s max_rows cur).row_count
        → resp.truncated ≡ (collect r s max_rows cur).truncated
        → Reports resp (fetched cur)
    not_run :
        (kind message : Text)
        → resp.error ≡ some (error_text kind message)
        → resp.rows ≡ []
        → resp.row_count ≡ 0
        → Reports resp (raised kind message)

  module _ (u : Unicode) (servers : Servers r) where
    -- The run that a query reports: a query of the proxy runs the statement itself there, and the
    -- translation of the agent beside it.
    pub data RunOn (sql : Text) : Source → Option Text → Option ℕ → Executed r → Type 0 where
      on_mysql : RunOn sql mysql_source none none (servers.aurora sql)
      on_redshift : RunOn sql redshift_source none none (servers.redshift sql)
      on_proxy :
          RunOn sql proxy_source
            (translate_call (servers.agent sql)).0
            (translate_call (servers.agent sql)).1
            (servers.proxy sql)

    pub record Answers (sql src : Text) (source : Source) (resp : QueryResp r) : Type 0 where
      pub ran : Executed r
      pub where_ : RunOn sql source resp.translated_sql resp.translate_ms ran
      pub reports : Reports resp ran
      pub named : resp.source ≡ src

    query_resp-Answers :
        (sql src : Text) (source : Source) (tr : Option Text) (ms : Option ℕ) (e : Executed r)
        → RunOn sql source tr ms e
        → (resp : QueryResp r) × (query_resp r s u max_rows servers src tr ms e ≡ ok resp)
          × Answers sql src source resp
    unfolding query_resp
    query_resp-Answers sql src source tr ms (fetched cur) w = (
      _,
      refl,
      record {
        ran = fetched cur;
        where_ = w;
        reports = ran_to_end cur refl refl refl refl refl;
        named = refl;
      },
    )
    query_resp-Answers sql src source tr ms (raised kind message) w = (
      _,
      refl,
      record {
        ran = raised kind message;
        where_ = w;
        reports = not_run kind message refl refl refl;
        named = refl;
      },
    )

    query_on-Answers :
        (sql src : Text) (source : Source)
        → ((source ≡ unknown)
            × (query_on r s u max_rows servers src sql source ≡ http 400 (unknown_source src)))
          ⊎ ((resp : QueryResp r) × (query_on r s u max_rows servers src sql source ≡ ok resp)
              × Answers sql src source resp)
    unfolding query_on
    query_on-Answers sql src mysql_source = inr (query_resp-Answers sql src _ none none _ on_mysql)
    query_on-Answers sql src redshift_source =
        inr (query_resp-Answers sql src _ none none _ on_redshift)
    query_on-Answers sql src proxy_source = inr (query_resp-Answers sql src _ _ _ _ on_proxy)
    query_on-Answers sql src unknown = inl (refl, refl)

    -- A query ends in one of three ways: with status 400 for an empty statement, with status 400 for a
    -- source that is none of the three, or with an answer that names the source and reports the run of the
    -- statement on its server, a failed run included, with the translation of the agent for the proxy.
    pub api_query-Answers :
        (req : QueryReq)
        → let src = clean_source u req.source in
          let sql = clean_request req.sql in
          ((is_empty sql ≡ true)
            × (api_query r s u max_rows servers req ≡ http 400 (codes "sql is empty")))
          ⊎ (((source_of src ≡ unknown)
                × (api_query r s u max_rows servers req ≡ http 400 (unknown_source src)))
              ⊎ ((resp : QueryResp r) × (api_query r s u max_rows servers req ≡ ok resp)
                  × Answers sql src (source_of src) resp))
    unfolding api_query
    api_query-Answers req = elim (Bool-cases (is_empty (clean_request req.sql))) [
      | inl e ↦ rw e (inl (refl, refl))
      | inr e ↦ rw e (inr (query_on-Answers (clean_request req.sql) (clean_source u req.source) _))
    ]

  module _ (u : Unicode) (servers : Servers r) where
    -- A plan, or an error without a plan.
    pub data PlanOrError (resp : ExplainResp) : Type 0 where
      plan : resp.error ≡ none → PlanOrError resp
      no_plan :
          (e : Text) → resp.error ≡ some e → resp.plan ≡ [] → resp.latency_ms ≡ 0 → PlanOrError resp

    pub Explained : Text → Option Text → Option ℕ → Response ExplainResp → Type 0
    Explained src tr ms response =
        (resp : ExplainResp) × (response ≡ ok resp)
        × (resp.source ≡ src)
        × (resp.translated_sql ≡ tr)
        × (resp.translate_ms ≡ ms)
        × PlanOrError resp

    explain_resp-Explained :
        (src : Text) (tr : Option Text) (ms : Option ℕ) (p : Planned)
        → Explained src tr ms (explain_resp src tr ms p)
    unfolding explain_resp Explained
    explain_resp-Explained src tr ms (planned lines n) = (_, refl, refl, refl, refl, plan refl)
    explain_resp-Explained src tr ms (failed kind message) =
        (_, refl, refl, refl, refl, no_plan _ refl refl refl)

    -- The translation that an explanation reports.
    unfoldable pub reported : Text → Source → Option Text × Option ℕ
    reported sql proxy_source = translate_call (servers.agent sql)
    reported sql mysql_source = (none, none)
    reported sql redshift_source = (none, none)
    reported sql unknown = (none, none)

    explain_on-Explained :
        (src sql : Text) (source : Source)
        → ((source ≡ unknown)
            × (explain_on r s u max_rows servers src sql source ≡ http 400 (unknown_source src)))
          ⊎ Explained src
              (reported sql source).0
              (reported sql source).1
              (explain_on r s u max_rows servers src sql source)
    unfolding explain_on reported
    explain_on-Explained src sql mysql_source = inr (explain_resp-Explained src none none _)
    explain_on-Explained src sql redshift_source = inr (explain_resp-Explained src none none _)
    explain_on-Explained src sql proxy_source = inr (explain_resp-Explained src _ _ _)
    explain_on-Explained src sql unknown = inl (refl, refl)

    -- An explanation ends in one of three ways: with status 400 for an empty statement, with status 400
    -- for a source that is none of the three, or with an answer that names the source, carries the
    -- translation of the agent for the proxy, and holds either a plan or an error with no plan.
    pub api_explain-Explained :
        (req : QueryReq)
        → let src = clean_source u req.source in
          let sql = clean_request req.sql in
          ((is_empty sql ≡ true)
            × (api_explain r s u max_rows servers req ≡ http 400 (codes "sql is empty")))
          ⊎ (((source_of src ≡ unknown)
                × (api_explain r s u max_rows servers req ≡ http 400 (unknown_source src)))
              ⊎ Explained src
                  (reported sql (source_of src)).0
                  (reported sql (source_of src)).1
                  (api_explain r s u max_rows servers req))
    unfolding api_explain
    api_explain-Explained req = elim (Bool-cases (is_empty (clean_request req.sql))) [
      | inl e ↦ rw e (inl (refl, refl))
      | inr e ↦
          rw e (inr (explain_on-Explained (clean_source u req.source) (clean_request req.sql) _))
    ]

    -- For a statement that is not empty and the source proxy, an agent that gives no translation, or an
    -- empty one, makes the answer an error without a plan, and Redshift is not asked.
    pub api_explain-untranslated :
        (req : QueryReq) (other : Text → Executed r)
        → is_empty (clean_request req.sql) ≡ false
        → source_of (clean_source u req.source) ≡ proxy_source
        → truthy (translate_call (servers.agent (clean_request req.sql))).0 ≡ false
        → (api_explain r s u max_rows (record servers { redshift = other }) req
            ≡ api_explain r s u max_rows servers req)
          × ((resp : ExplainResp) × (api_explain r s u max_rows servers req ≡ ok resp)
              × (resp.plan ≡ [])
              × ¬ (resp.error ≡ none))
    unfolding api_explain explain_on explain_translated explain_resp
    api_explain-untranslated req other filled proxied missing =
        rw (filled, proxied, missing) (refl, (_, refl, refl, λ e. cc))
