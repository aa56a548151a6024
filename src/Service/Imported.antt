-- ===== src/Service/Imported.antt =====
-- How an import ends, and what it leaves in the knowledge base.
use mathlib.Core.Path.{subst}
use mysql_redshift_agent.Prelude.{
  ℕ, ◌≡◌, refl, ap, ◌∙◌, sym, ◌⊎◌, inl, inr, Bool, true, false, ◌||◌, none, some, arith,
}
use mysql_redshift_agent.Text.{Unicode, text_eq}
use mysql_redshift_agent.Rules.{Directory}
use mysql_redshift_agent.Value.{Runtime}
use mysql_redshift_agent.Knowledge.Table.{Entry, Table, Backend, conflicting}
use mysql_redshift_agent.Knowledge.Store.{Config, import_, bypass_filter}
use mysql_redshift_agent.Knowledge.Saving.{save_example-some}
use mysql_redshift_agent.Service.Translate.{TranslateResp, Response, ok, translate}
use mysql_redshift_agent.Service.Import.{
  ImportTestReq, ImportTestResp, stored_mode, Environment, import_test,
}
use mysql_redshift_agent.Service.Ends.{Ends, translated_step-Ends}

bypass_import : bypass_filter import_ ≡ true
unfolding bypass_filter text_eq
bypass_import = refl

module _ (r : Runtime) (b : Backend) (u : Unicode) (dir : Directory) (c : Config b.Score)
    (env : Environment r) (req : ImportTestReq) where
  -- The translation of an import, with the table that it leaves.
  abbrev pub translation_of : Table b.Vector → Response (TranslateResp b.Score) × Table b.Vector
  translation_of t =
      translate b u dir c env.ask env.fails_retrieval env.translated_at env.translate_ms
        (record { sql = req.mysql_sql; prev_error = none; prev_sql = none }) t

  abbrev pub translated_table : Table b.Vector → Table b.Vector
  translated_table t = (translation_of t).1

  -- An import ends in one of three ways. Both databases ran and the comparison of their results raised,
  -- and the table is the one that the translation left. Or nothing was handed to the knowledge base,
  -- since the translation failed, a database raised, or the comparison did not accept and nothing was
  -- forced, which the response reports, and the table is again the one that the translation left. Or
  -- MySQL ran the statement and Redshift the translation, the comparison of their results accepted or
  -- the save was forced, and the sample was handed to `save_example` with the statement, the
  -- translation and its rules, the number of rows of MySQL, the times of both runs, the source import and
  -- the stored mode, and the response reports what that returned.
  pub import_test-Ends :
      (t : Table b.Vector)
      → Ends r b u dir c env req
          (translation_of t).0
          (translation_of t).1
          (import_test r b u dir c env req t)
  unfolding import_test
  import_test-Ends t = translated_step-Ends r b u dir c env req _ (translated_table t)

  -- An import that reports a save has run the statement on both databases, and the comparison accepted
  -- the results unless the request forces the save.
  pub import_test-saved :
      (t after : Table b.Vector) (resp : ImportTestResp r)
      → import_test r b u dir c env req t ≡ (some resp, after)
      → resp.saved ≡ true
      → (resp.mysql_ok ≡ true)
        × (resp.redshift_ok ≡ true)
        × ((resp.compare_ok ≡ true) ⊎ (req.force_save ≡ true))
  import_test-saved t after resp h k =
      elim (subst (Ends r b u dir c env req (translation_of t).0 (translated_table t)) h
        (import_test-Ends t)) [
          | inl (s, _) ↦ absurd (cc (k, s.saved))
          | inr a ↦ (a.mysql_ok, a.redshift_ok, either resp.compare_ok req.force_save a.wanted)
        ]
    where
      either : (p q : Bool) → (p || q) ≡ true → (p ≡ true) ⊎ (q ≡ true)
      either true q e = inl refl
      either false q e = inr e

  -- An import whose response has no accepted comparison and whose request does not force the save leaves
  -- the table as the translation left it, and reports no save.
  pub import_test-rejected :
      (t after : Table b.Vector) (resp : ImportTestResp r)
      → import_test r b u dir c env req t ≡ (some resp, after)
      → resp.compare_ok ≡ false
      → req.force_save ≡ false
      → (after ≡ translated_table t) × (resp.saved ≡ false)
  import_test-rejected t after resp h rejects unforced =
      elim (subst (Ends r b u dir c env req (translation_of t).0 (translated_table t)) h
        (import_test-Ends t)) [
          | inl (s, same) ↦ (same, s.saved)
          | inr a ↦ absurd (ground (arith, a.wanted))
        ]

  -- The row of the table that a later import of the statement would meet.
  pub record Imported (tr : Response (TranslateResp b.Score)) (resp : ImportTestResp r) (i : ℕ)
      (after : Table b.Vector) : Type 0 where
    pub tr_resp : TranslateResp b.Score
    pub translates : tr ≡ ok tr_resp
    pub row : Entry b.Vector
    pub found : conflicting b req.mysql_sql after.rows ≡ some row
    pub id : row.id ≡ i
    pub redshift_sql : row.redshift_sql ≡ tr_resp.redshift_sql
    pub reported : resp.redshift_sql ≡ some tr_resp.redshift_sql
    pub source : row.source ≡ import_
    pub compare_mode : row.compare_mode ≡ stored_mode req resp.compare_ok

  -- An import that returns an id has translated the statement, and has left a row of that id under the
  -- statement, with the translation, which the response reports too, the source import, and the mode of
  -- the request or override.
  pub import_test-Imported :
      (t after : Table b.Vector) (resp : ImportTestResp r) (i : ℕ)
      → import_test r b u dir c env req t ≡ (some resp, after)
      → resp.saved_id ≡ some i
      → Imported (translation_of t).0 resp i after
  import_test-Imported t after resp i h k =
      elim (subst (Ends r b u dir c env req (translation_of t).0 (translated_table t)) h
        (import_test-Ends t)) [
          | inl (s, _) ↦ absurd (cc (k, s.saved_id))
          | inr a ↦
              let held =
                save_example-some b u c env.fails_save env.saved_at a.draft (translated_table t) i
                  (ap bypass_filter a.source ∙ bypass_import) (sym a.saved_id ∙ k) in
              record {
                tr_resp = a.tr_resp;
                translates = a.translates;
                row = held.row;
                found =
                    ap (λ q. conflicting b q after.rows) (sym a.mysql_sql)
                    ∙ ap (λ x. conflicting b a.draft.mysql_sql x.rows) a.after_save
                    ∙ held.found;
                id = held.id;
                redshift_sql = held.redshift_sql ∙ a.translated;
                reported = a.redshift_sql ∙ ap some a.translated;
                source = held.source ∙ a.source;
                compare_mode = held.compare_mode ∙ a.compare_mode;
              }
        ]
