-- ===== src/Service/Ends.antt =====
-- How each step of an import ends, from the translation on.
use mysql_redshift_agent.Prelude.{
  ℕ, ◌≡◌, refl, ◌⊎◌, inl, inr, true, false, ◌&&◌, ◌||◌, Option, none, some, length, take, is_some,
  Bool-cases, Option_both,
}
use mysql_redshift_agent.Text.{Text, Unicode}
use mysql_redshift_agent.Rules.{Directory}
use mysql_redshift_agent.Value.{Runtime, pos}
use mysql_redshift_agent.Compare.{Verdict, compare}
use mysql_redshift_agent.Knowledge.Table.{Table, Backend, Draft}
use mysql_redshift_agent.Knowledge.Store.{Config, import_, save_example}
use mysql_redshift_agent.Service.Translate.{TranslateResp, Response, ok, http}
use mysql_redshift_agent.Service.Import.{
  ResultSet, Ran, ImportReason, returned, failed, execute, ImportTestReq, ImportTestResp,
  blank_resp, stored_mode, nat_to_int, import_draft, Environment, save_step, compare_step,
  redshift_step, mysql_step, translated_step,
}

module _ (r : Runtime) (b : Backend) (u : Unicode) (dir : Directory) (c : Config b.Score)
    (env : Environment r) (req : ImportTestReq) where
  -- Both databases ran: MySQL the statement of the request, and Redshift its translation.
  pub record BothRan (tr : TranslateResp b.Score) (my rs : ResultSet r) : Type 0 where
    pub mysql : execute (env.run_mysql req.mysql_sql) ≡ returned my
    pub redshift : execute (env.run_redshift tr.redshift_sql) ≡ returned rs

  abbrev pub compared_results : ResultSet r → ResultSet r → Option (Verdict r)
  compared_results my rs = compare r u my.rows rs.rows my.columns rs.columns req.compare_mode

  -- Why nothing was handed to the knowledge base, by the translation, and what the response says of it.
  pub data Why (resp : ImportTestResp r) : Response (TranslateResp b.Score) → Type 0 where
    untranslated :
        (status : ℕ) (detail : Text)
        → resp.redshift_sql ≡ none
        → resp.compare_reason ≡ ImportReason.translation_failed detail
        → Why resp (http status detail)
    mysql_raised :
        (tr : TranslateResp b.Score) (e : Text)
        → execute (env.run_mysql req.mysql_sql) ≡ failed e
        → resp.redshift_sql ≡ some tr.redshift_sql
        → resp.mysql_ok ≡ false
        → resp.compare_reason ≡ ImportReason.mysql_failed (take 500 e)
        → Why resp (ok tr)
    redshift_raised :
        (tr : TranslateResp b.Score) (my : ResultSet r) (e : Text)
        → execute (env.run_mysql req.mysql_sql) ≡ returned my
        → execute (env.run_redshift tr.redshift_sql) ≡ failed e
        → resp.redshift_sql ≡ some tr.redshift_sql
        → resp.redshift_ok ≡ false
        → resp.compare_reason ≡ ImportReason.redshift_failed (take 500 e)
        → Why resp (ok tr)
    refused :
        (tr : TranslateResp b.Score) (my rs : ResultSet r) (cmp : Verdict r)
        → BothRan tr my rs
        → compared_results my rs ≡ some cmp
        → (cmp.ok || req.force_save) ≡ false
        → resp.redshift_sql ≡ some tr.redshift_sql
        → resp.compare_ok ≡ cmp.ok
        → resp.compare_reason ≡ ImportReason.compared cmp.reason
        → Why resp (ok tr)

  -- Nothing was handed to the knowledge base, for one of the reasons of the code.
  pub record Stopped (tr : Response (TranslateResp b.Score)) (resp : ImportTestResp r)
      : Type 0 where
    pub saved : resp.saved ≡ false
    pub saved_id : resp.saved_id ≡ none
    pub reason :
        (resp.mysql_ok && (resp.redshift_ok && (resp.compare_ok || req.force_save))) ≡ false
    pub why : Why resp tr

  -- The sample was handed to the knowledge base, as the table `before` stood.
  pub record Attempted (tr : Response (TranslateResp b.Score)) (before : Table b.Vector)
      (resp : ImportTestResp r) (after : Table b.Vector) : Type 0 where
    pub tr_resp : TranslateResp b.Score
    pub translates : tr ≡ ok tr_resp
    pub my : ResultSet r
    pub rs : ResultSet r
    pub ran : BothRan tr_resp my rs
    pub cmp : Verdict r
    pub verdict : compared_results my rs ≡ some cmp
    pub compare_ok : resp.compare_ok ≡ cmp.ok
    pub mysql_ok : resp.mysql_ok ≡ true
    pub redshift_ok : resp.redshift_ok ≡ true
    pub wanted : (resp.compare_ok || req.force_save) ≡ true
    pub draft : Draft
    pub mysql_sql : draft.mysql_sql ≡ req.mysql_sql
    pub redshift_sql : resp.redshift_sql ≡ some draft.redshift_sql
    pub translated : draft.redshift_sql ≡ tr_resp.redshift_sql
    pub used_rules : draft.used_rules ≡ tr_resp.used_rules
    pub row_count : draft.row_count ≡ some (pos (length my.rows))
    pub mysql_ms : draft.mysql_ms ≡ some (pos my.latency_ms)
    pub redshift_ms : draft.redshift_ms ≡ some (pos rs.latency_ms)
    pub compare_mode : draft.compare_mode ≡ stored_mode req resp.compare_ok
    pub source : draft.source ≡ import_
    pub saved_id : resp.saved_id ≡ (save_example b u c env.fails_save env.saved_at draft before).0
    pub after_save : after ≡ (save_example b u c env.fails_save env.saved_at draft before).1
    pub saved : resp.saved ≡ is_some resp.saved_id

  -- Both databases ran, and the comparison of the results raised.
  pub record Raised (tr : Response (TranslateResp b.Score)) : Type 0 where
    pub tr_resp : TranslateResp b.Score
    pub translates : tr ≡ ok tr_resp
    pub my : ResultSet r
    pub rs : ResultSet r
    pub ran : BothRan tr_resp my rs
    pub index_error : compared_results my rs ≡ none

  -- The end of an import behind its translation and over the table that this left.
  abbrev pub Ends :
      Response (TranslateResp b.Score)
      → Table b.Vector
      → Option (ImportTestResp r) × Table b.Vector
      → Type 0
  Ends tr before (none, after) = Raised tr × (after ≡ before)
  Ends tr before (some resp, after) =
      (Stopped tr resp × (after ≡ before)) ⊎ Attempted tr before resp after

  module _ (resp : ImportTestResp r) (tr : TranslateResp b.Score) (t : Table b.Vector) where
    -- What the steps before the save have set.
    record Fresh : Type 0 where
      unsaved : resp.saved ≡ false
      no_id : resp.saved_id ≡ none
      translated : resp.redshift_sql ≡ some tr.redshift_sql
      rules : resp.used_rules ≡ tr.used_rules

    -- What the runs of the databases have set.
    record Measured (my rs : ResultSet r) : Type 0 where
      rows : resp.mysql_rows ≡ some (length my.rows)
      mysql_ms : resp.mysql_ms ≡ some my.latency_ms
      redshift_ms : resp.redshift_ms ≡ some rs.latency_ms

    save_step-Ends :
        (my_rows rs_rows : ResultSet r) (cmp : Verdict r)
        → BothRan tr my_rows rs_rows
        → compared_results my_rows rs_rows ≡ some cmp
        → Measured my_rows rs_rows
        → Fresh
        → resp.mysql_ok ≡ true
        → resp.redshift_ok ≡ true
        → resp.compare_ok ≡ cmp.ok
        → resp.compare_reason ≡ ImportReason.compared cmp.reason
        → Ends (ok tr) t (
          some (save_step r b u dir c env req resp tr.redshift_sql cmp t).0,
          (save_step r b u dir c env req resp tr.redshift_sql cmp t).1,
        )
    unfolding save_step import_draft nat_to_int
    save_step-Ends my_rows rs_rows cmp ran verdict times f my rs same why =
        elim (Bool-cases (cmp.ok || req.force_save)) [
          | inl e ↦ rw e (
              inr (record {
                tr_resp = tr;
                translates = refl;
                my = my_rows;
                rs = rs_rows;
                ran = ran;
                cmp = cmp;
                verdict = verdict;
                compare_ok = same;
                mysql_ok = my;
                redshift_ok = rs;
                wanted = rw same e;
                draft = import_draft req resp tr.redshift_sql cmp.ok;
                mysql_sql = refl;
                redshift_sql = f.translated;
                compare_mode = rw same refl;
                source = refl;
                translated = refl;
                used_rules = f.rules;
                row_count = rw times.rows refl;
                mysql_ms = rw times.mysql_ms refl;
                redshift_ms = rw times.redshift_ms refl;
                saved_id = refl;
                after_save = refl;
                saved = refl;
              }))
          | inr e ↦ rw e (
              inl (
                record {
                  saved = f.unsaved;
                  saved_id = f.no_id;
                  reason = rw (my, rs, same, e);
                  why = refused tr my_rows rs_rows cmp ran verdict e f.translated same why;
                },
                refl,
              ))
        ]

  compare_step-Ends :
      (resp : ImportTestResp r) (tr : TranslateResp b.Score) (my rs : ResultSet r)
      (t : Table b.Vector)
      → BothRan tr my rs
      → Measured resp tr t my rs
      → Fresh resp tr t
      → resp.mysql_ok ≡ true
      → resp.redshift_ok ≡ true
      → Ends (ok tr) t (compare_step r b u dir c env req resp tr.redshift_sql my rs t)
  unfolding compare_step
  compare_step-Ends resp tr my rs t ran times f m s =
      Option_both (Ends (ok tr) t) (compared_results my rs) _ _
        (λ e. (
          record { tr_resp = tr; translates = refl; my = my; rs = rs; ran = ran; index_error = e },
          refl,
        ))
        (λ cmp e.
          save_step-Ends
            (record resp { compare_ok = cmp.ok; compare_reason = ImportReason.compared cmp.reason })
            tr t my rs cmp ran e
            (record {
              rows = times.rows;
              mysql_ms = times.mysql_ms;
              redshift_ms = times.redshift_ms;
            })
            (record {
              unsaved = f.unsaved;
              no_id = f.no_id;
              translated = f.translated;
              rules = f.rules;
            })
            m s refl refl)

  redshift_step-Ends :
      (resp : ImportTestResp r) (tr : TranslateResp b.Score) (my : ResultSet r) (rs : Ran r)
      (t : Table b.Vector)
      → execute (env.run_mysql req.mysql_sql) ≡ returned my
      → execute (env.run_redshift tr.redshift_sql) ≡ rs
      → resp.mysql_rows ≡ some (length my.rows)
      → resp.mysql_ms ≡ some my.latency_ms
      → Fresh resp tr t
      → resp.mysql_ok ≡ true
      → resp.redshift_ok ≡ false
      → Ends (ok tr) t (redshift_step r b u dir c env req resp tr.redshift_sql my rs t)
  unfolding redshift_step
  redshift_step-Ends resp tr my (failed e) t p q n l f m s = inl (
    record {
      saved = f.unsaved;
      saved_id = f.no_id;
      reason = rw (m, s);
      why = redshift_raised tr my e p q f.translated s refl;
    },
    refl,
  )
  redshift_step-Ends resp tr my (returned rs) t p q n l f m s =
      compare_step-Ends
        (record resp {
          redshift_ok = true;
          redshift_ms = some rs.latency_ms;
          redshift_rows = some (length rs.rows);
        })
        tr my rs t (record { mysql = p; redshift = q })
        (record { rows = n; mysql_ms = l; redshift_ms = refl })
        (record {
          unsaved = f.unsaved;
          no_id = f.no_id;
          translated = f.translated;
          rules = f.rules;
        })
        m refl

  mysql_step-Ends :
      (resp : ImportTestResp r) (tr : TranslateResp b.Score) (my : Ran r) (t : Table b.Vector)
      → execute (env.run_mysql req.mysql_sql) ≡ my
      → Fresh resp tr t
      → resp.mysql_ok ≡ false
      → resp.redshift_ok ≡ false
      → Ends (ok tr) t (mysql_step r b u dir c env req resp tr.redshift_sql my t)
  unfolding mysql_step
  mysql_step-Ends resp tr (failed e) t p f m s = inl (
    record {
      saved = f.unsaved;
      saved_id = f.no_id;
      reason = rw m;
      why = mysql_raised tr e p f.translated m refl;
    },
    refl,
  )
  mysql_step-Ends resp tr (returned my) t p f m s =
      redshift_step-Ends
        (record resp {
          mysql_ok = true;
          mysql_ms = some my.latency_ms;
          mysql_rows = some (length my.rows);
        })
        tr my (execute (env.run_redshift tr.redshift_sql)) t p refl refl refl
        (record {
          unsaved = f.unsaved;
          no_id = f.no_id;
          translated = f.translated;
          rules = f.rules;
        })
        refl s

  pub translated_step-Ends :
      (tr : Response (TranslateResp b.Score)) (t : Table b.Vector)
      → Ends tr t (translated_step r b u dir c env req tr t)
  unfolding translated_step blank_resp
  translated_step-Ends (http status detail) t = inl (
    record {
      saved = refl;
      saved_id = refl;
      reason = refl;
      why = untranslated status detail refl refl;
    },
    refl,
  )
  translated_step-Ends (ok tr) t =
      mysql_step-Ends
        (record (blank_resp r req) {
          redshift_sql = some tr.redshift_sql;
          translate_ms = some tr.latency_ms;
          used_rules = tr.used_rules;
          examples_hit = tr.examples_hit;
        })
        tr (execute (env.run_mysql req.mysql_sql)) t refl
        (record { unsaved = refl; no_id = refl; translated = refl; rules = refl }) refl refl
