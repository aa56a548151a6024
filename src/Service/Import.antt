-- ===== src/Service/Import.antt =====
-- The import of a statement in agent/app.py: translate, run on both databases, compare, save; and the executors of
-- agent/tools/executors.py.
use mysql_redshift_agent.Prelude.{
  ℕ, Bool, true, false, ◌&&◌, ◌||◌, not, Option, none, some, List, [], length, take, is_some,
  if◌then◌else◌,
}
use mysql_redshift_agent.Text.{Text, Unicode, codes}
use mysql_redshift_agent.Rules.{Directory}
use mysql_redshift_agent.Driver.{Executed, names_of, available}
use mysql_redshift_agent.Value.{ℤ, pos, Runtime, Row}
use mysql_redshift_agent.Compare.{Verdict, Reason, compare}
use mysql_redshift_agent.Knowledge.Table.{Table, Backend, Draft}
use mysql_redshift_agent.Knowledge.Store.{Config, Faults, import_, save_example}
use mysql_redshift_agent.Service.Translate.{TranslateResp, Response, Reply, ok, http, translate}

-- What an executor returns.
pub record ResultSet (r : Runtime) : Type 0 where
  pub columns : List Text
  pub rows : List (Row r)
  pub latency_ms : ℕ

-- A result set, or the text of the exception.
pub data Ran (r : Runtime) : Type 0 where
  returned : ResultSet r → Ran r
  failed : Text → Ran r

-- `run_mysql` and `run_redshift`: the result of a run, from `cur.execute` on.
unfoldable pub execute : {r : Runtime} → Executed r → Ran r
execute (Executed.raised kind message) = failed message
execute (Executed.fetched cur) = returned (record {
  columns = names_of cur.description;
  rows = available (names_of cur.description) cur.rows;
  latency_ms = cur.latency_ms;
})

-- `compare_reason`: the stage that failed with its message, or the reason of the comparison.
pub data ImportReason (r : Runtime) : Type 0 where
  empty : ImportReason r
  translation_failed : Text → ImportReason r
  mysql_failed : Text → ImportReason r
  redshift_failed : Text → ImportReason r
  compared : Reason r → ImportReason r

pub record ImportTestReq : Type 0 where
  pub mysql_sql : Text
  pub compare_mode : Text
  pub force_save : Bool

pub record ImportTestResp (r : Runtime) : Type 0 where
  pub mysql_sql : Text
  pub redshift_sql : Option Text
  pub translate_ms : Option ℕ
  pub used_rules : List Text
  pub examples_hit : ℕ
  pub mysql_ok : Bool
  pub mysql_ms : Option ℕ
  pub mysql_rows : Option ℕ
  pub mysql_error : Option Text
  pub redshift_ok : Bool
  pub redshift_ms : Option ℕ
  pub redshift_rows : Option ℕ
  pub redshift_error : Option Text
  pub compare_ok : Bool
  pub compare_reason : ImportReason r
  pub saved : Bool
  pub saved_id : Option ℕ

-- `ImportTestResp(mysql_sql=req.mysql_sql)`
unfoldable pub blank_resp : (r : Runtime) → ImportTestReq → ImportTestResp r
blank_resp r req = record {
  mysql_sql = req.mysql_sql;
  redshift_sql = none;
  translate_ms = none;
  used_rules = [];
  examples_hit = 0;
  mysql_ok = false;
  mysql_ms = none;
  mysql_rows = none;
  mysql_error = none;
  redshift_ok = false;
  redshift_ms = none;
  redshift_rows = none;
  redshift_error = none;
  compare_ok = false;
  compare_reason = ImportReason.empty;
  saved = false;
  saved_id = none;
}

abbrev pub override_ : Text
override_ = codes "override"

-- The mode that is stored with the sample.
unfoldable pub stored_mode : ImportTestReq → Bool → Text
stored_mode req cmp_ok = if not cmp_ok && req.force_save then override_ else req.compare_mode

unfoldable pub nat_to_int : Option ℕ → Option ℤ
nat_to_int none = none
nat_to_int (some n) = some (pos n)

unfoldable pub import_draft : {r : Runtime} → ImportTestReq → ImportTestResp r → Text → Bool → Draft
import_draft req resp redshift_sql cmp_ok = record {
  mysql_sql = req.mysql_sql;
  redshift_sql = redshift_sql;
  used_rules = resp.used_rules;
  row_count = nat_to_int resp.mysql_rows;
  mysql_ms = nat_to_int resp.mysql_ms;
  redshift_ms = nat_to_int resp.redshift_ms;
  compare_mode = stored_mode req cmp_ok;
  source = import_;
}

-- The environment of one import: the model, the two databases, the times, and what fails in the
-- retrieval and in the save.
pub record Environment (r : Runtime) : Type 0 where
  pub ask : Text → Reply
  pub run_mysql : Text → Executed r
  pub run_redshift : Text → Executed r
  pub translate_ms : ℕ
  pub translated_at : ℕ
  pub saved_at : ℕ
  pub fails_retrieval : Faults
  pub fails_save : Faults

module _ (r : Runtime) (b : Backend) (u : Unicode) (dir : Directory) (c : Config b.Score) where
  -- Step 5.
  unfoldable pub save_step :
      Environment r
      → ImportTestReq
      → ImportTestResp r
      → Text
      → Verdict r
      → Table b.Vector
      → ImportTestResp r × Table b.Vector
  save_step env req resp redshift_sql cmp t =
      if cmp.ok || req.force_save
      then (let (rid, t') =
            save_example b u c env.fails_save env.saved_at
              (import_draft req resp redshift_sql cmp.ok) t in
          (record resp { saved = is_some rid; saved_id = rid }, t'))
      else (resp, t)

  -- Step 4. `none` is the IndexError of the comparison, which nothing handles.
  unfoldable pub compare_step :
      Environment r
      → ImportTestReq
      → ImportTestResp r
      → Text
      → ResultSet r
      → ResultSet r
      → Table b.Vector
      → Option (ImportTestResp r) × Table b.Vector
  compare_step env req resp redshift_sql my rs t =
      elim (compare r u my.rows rs.rows my.columns rs.columns req.compare_mode) [
        | none ↦ (none, t)
        | some cmp ↦
            let (resp', t') =
              save_step env req
                (record resp {
                  compare_ok = cmp.ok;
                  compare_reason = ImportReason.compared cmp.reason;
                })
                redshift_sql cmp t in
            (some resp', t')
      ]

  -- Step 3.
  unfoldable pub redshift_step :
      Environment r
      → ImportTestReq
      → ImportTestResp r
      → Text
      → ResultSet r
      → Ran r
      → Table b.Vector
      → Option (ImportTestResp r) × Table b.Vector
  redshift_step env req resp redshift_sql my (failed e) t = (
    some (record resp {
      redshift_error = some (take 500 e);
      compare_reason = ImportReason.redshift_failed (take 500 e);
    }),
    t,
  )
  redshift_step env req resp redshift_sql my (returned rs) t =
      compare_step env req
        (record resp {
          redshift_ok = true;
          redshift_ms = some rs.latency_ms;
          redshift_rows = some (length rs.rows);
        })
        redshift_sql my rs t

  -- Step 2.
  unfoldable pub mysql_step :
      Environment r
      → ImportTestReq
      → ImportTestResp r
      → Text
      → Ran r
      → Table b.Vector
      → Option (ImportTestResp r) × Table b.Vector
  mysql_step env req resp redshift_sql (failed e) t = (
    some (record resp {
      mysql_error = some (take 500 e);
      compare_reason = ImportReason.mysql_failed (take 500 e);
    }),
    t,
  )
  mysql_step env req resp redshift_sql (returned my) t =
      redshift_step env req
        (record resp {
          mysql_ok = true;
          mysql_ms = some my.latency_ms;
          mysql_rows = some (length my.rows);
        })
        redshift_sql my (execute (env.run_redshift redshift_sql)) t

  -- Step 1, and what follows it.
  unfoldable pub translated_step :
      Environment r
      → ImportTestReq
      → Response (TranslateResp b.Score)
      → Table b.Vector
      → Option (ImportTestResp r) × Table b.Vector
  translated_step env req (http status detail) t = (
    some (record (blank_resp r req) { compare_reason = ImportReason.translation_failed detail }),
    t,
  )
  translated_step env req (ok tr) t =
      mysql_step env req
        (record (blank_resp r req) {
          redshift_sql = some tr.redshift_sql;
          translate_ms = some tr.latency_ms;
          used_rules = tr.used_rules;
          examples_hit = tr.examples_hit;
        })
        tr.redshift_sql (execute (env.run_mysql req.mysql_sql)) t

  unfoldable pub import_test :
      Environment r → ImportTestReq → Table b.Vector → Option (ImportTestResp r) × Table b.Vector
  import_test env req t =
      let (tr, t') =
        translate b u dir c env.ask env.fails_retrieval env.translated_at env.translate_ms
          (record { sql = req.mysql_sql; prev_error = none; prev_sql = none }) t in
      translated_step env req tr t'
