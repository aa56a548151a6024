-- ===== src/Seed.antt =====
-- scripts/seed_knowledge.py: the samples that are posted to the agent, one by one, and the exit code.
pub mod Known
use mysql_redshift_agent.Prelude.{
  ℕ, ◌+◌, Bool, true, false, Option, none, some, List, [], ◌∷◌, ◌==◌, if◌then◌else◌,
}
use mysql_redshift_agent.Text.{Text, Unicode, codes}
use mysql_redshift_agent.Knowledge.Table.{Table, Backend, Draft}
use mysql_redshift_agent.Knowledge.Store.{Config, Faults, seed}
use mysql_redshift_agent.Delivery.{Delivery, answered, answer_lost, not_sent}
use mysql_redshift_agent.Service.Manage.{save_example_endpoint}

-- An item of SEEDS.
pub record Sample : Type 0 where
  pub mysql : Text
  pub redshift : Text
  pub rules : List Text

unfoldable pub seeds : List Sample
seeds =
    (record {
      mysql = codes "SELECT COUNT(*) AS total FROM dw.ads_thor_fin_payment_iap_data_new";
      redshift = codes "SELECT COUNT(*) AS total FROM ads_thor_fin_payment_iap_data_new";
      rules = codes "schema_prefix.md" ∷ [];
    })
    ∷ (record {
      mysql = codes "SELECT `uid`, `amount` FROM dw.ads_thor_fin_payment_iap_data_new LIMIT 3";
      redshift = codes "SELECT \"uid\", \"amount\" FROM ads_thor_fin_payment_iap_data_new LIMIT 3";
      rules = codes "backticks.md" ∷ codes "schema_prefix.md" ∷ [];
    })
    ∷ (record {
      mysql =
          codes "SELECT uid, ts FROM dw.ads_thor_fin_payment_iap_data_new ORDER BY ts LIMIT 2, 3";
      redshift =
          codes
            "SELECT uid, ts FROM ads_thor_fin_payment_iap_data_new ORDER BY ts LIMIT 3 OFFSET 2";
      rules = codes "limit_offset.md" ∷ codes "schema_prefix.md" ∷ [];
    })
    ∷ (record {
      mysql =
          codes
            "SELECT uid, IFNULL(app_version, 'unknown') AS ver FROM dw.ads_thor_fin_payment_iap_data_new LIMIT 3";
      redshift =
          codes
            "SELECT uid, COALESCE(app_version, 'unknown') AS ver FROM ads_thor_fin_payment_iap_data_new LIMIT 3";
      rules = codes "ifnull.md" ∷ codes "schema_prefix.md" ∷ [];
    })
    ∷ (record {
      mysql =
          codes
            "SELECT DATE_FORMAT(event_time, '%Y-%m-%d') AS day, COUNT(*) c FROM dw.ads_thor_fin_payment_iap_data_new GROUP BY day ORDER BY day LIMIT 3";
      redshift =
          codes
            "SELECT TO_CHAR(event_time, 'YYYY-MM-DD') AS day, COUNT(*) c FROM ads_thor_fin_payment_iap_data_new GROUP BY day ORDER BY day LIMIT 3";
      rules = codes "date_format.md" ∷ codes "schema_prefix.md" ∷ [];
    })
    ∷ (record {
      mysql =
          codes
            "SELECT payment_processor, GROUP_CONCAT(DISTINCT app_id) AS apps FROM dw.ads_thor_fin_payment_iap_data_new GROUP BY payment_processor";
      redshift =
          codes
            "SELECT payment_processor, LISTAGG(DISTINCT app_id, ',') WITHIN GROUP (ORDER BY app_id) AS apps FROM ads_thor_fin_payment_iap_data_new GROUP BY payment_processor";
      rules = codes "group_concat.md" ∷ codes "schema_prefix.md" ∷ [];
    })
    ∷ []

abbrev pub skipped_mode : Text
skipped_mode = codes "skipped"

-- The payload, with the fields that the endpoint adds by default.
unfoldable pub payload : Sample → Draft
payload s = record {
  mysql_sql = s.mysql;
  redshift_sql = s.redshift;
  used_rules = s.rules;
  row_count = none;
  mysql_ms = none;
  redshift_ms = none;
  compare_mode = skipped_mode;
  source = seed;
}

-- One post: how it goes, the time, and the steps that fail at the agent.
pub record Post : Type 0 where
  pub delivery : Delivery
  pub now : ℕ
  pub fails : Faults

-- The counters `ok` and `fail`.
pub record Tally : Type 0 where
  pub ok : ℕ
  pub fail : ℕ

abbrev pub counted_ok : Tally → Tally
counted_ok y = record y { ok = y.ok + 1 }

abbrev pub counted_fail : Tally → Tally
counted_fail y = record y { fail = y.fail + 1 }

module _ (b : Backend) (u : Unicode) (c : Config b.Score) where
  -- The body of the loop.
  unfoldable pub seed_one :
      Delivery → Post → Sample → Tally → Table b.Vector → Tally × Table b.Vector
  seed_one not_sent p s y t = (counted_fail y, t)
  seed_one answer_lost p s y t =
      (counted_fail y, (save_example_endpoint b u c p.fails p.now (payload s) t).1)
  seed_one answered p s y t =
      let ((saved, id), t') = save_example_endpoint b u c p.fails p.now (payload s) t in
      (if saved then counted_ok y else counted_fail y, t')

  -- The loop, over the samples that are left and the number of the next one.
  unfoldable pub seed_from :
      (ℕ → Post) → ℕ → List Sample → Tally → Table b.Vector → Tally × Table b.Vector
  unfolding seed_one
  seed_from posts i [] y t = (y, t)
  seed_from posts i (s ∷ samples) y t =
      let (y', t') = seed_one (posts i).delivery (posts i) s y t in
      seed_from posts (i + 1) samples y' t'

  -- `main`: the exit code and the table.
  unfoldable pub seed_main : (ℕ → Post) → List Sample → Table b.Vector → ℕ × Table b.Vector
  seed_main posts samples t =
      let (y, t') = seed_from posts 1 samples (record { ok = 0; fail = 0 }) t in
      (if y.fail == 0 then 0 else 1, t')
