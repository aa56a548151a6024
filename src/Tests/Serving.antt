-- ===== src/Tests/Serving.antt =====
-- A translation and an import at concrete requests, and the theorems on them.
use mysql_redshift_agent.Prelude.{ℕ, ◌≡◌, refl, true, false, Option, none, some, [], ◌∷◌}
use mysql_redshift_agent.Text.{Text, codes}
use mysql_redshift_agent.Text.Strip.{IsStripped}
use mysql_redshift_agent.Extract.{
  strip_code_fence, is_untranslatable, take_fenced, from_keyword, clean_end,
}
use mysql_redshift_agent.Driver.{Cursor, Executed, names_of, available}
use mysql_redshift_agent.Value.{pos, Value}
use mysql_redshift_agent.Knowledge.Table.{Table}
use mysql_redshift_agent.Knowledge.Retrieval.{AllCount, ids_of}
use mysql_redshift_agent.Service.Translate.{
  TranslateReq, TranslateResp, Reply, ok, http, said, truthy, user_message, answer, examples_for,
  translate, clean_request, attempt_of, shown, initial,
}
use mysql_redshift_agent.Service.Translated.{Fails, translate-ok, translate-http, translate-counts}
use mysql_redshift_agent.Service.Import.{
  ImportTestReq, ImportTestResp, Environment, blank_resp, stored_mode, nat_to_int, import_draft,
  save_step, compare_step, redshift_step, mysql_step, execute, translated_step, import_test,
}
use mysql_redshift_agent.Service.Ends.{Ends}
use mysql_redshift_agent.Service.Imported.{
  Imported, translation_of, import_test-Ends, import_test-Imported,
}
use mysql_redshift_agent.Tests.Fixtures.{
  ascii, hundredths, by_length, config, never, mysql_count, redshift_count, seeded, documents,
}
use mysql_redshift_agent.Tests.Texts.{extracting}
use mysql_redshift_agent.Tests.Knowing.{storing}
use mysql_redshift_agent.Tests.Comparing.{program}

unfoldable pub importing : Unit {0}
unfolding extracting storing program strip_code_fence is_untranslatable take_fenced from_keyword
    clean_end truthy examples_for answer translate clean_request attempt_of shown blank_resp
    stored_mode nat_to_int import_draft save_step compare_step redshift_step mysql_step
    translated_step execute names_of available import_test
importing = tt

abbrev asked : TranslateReq
asked = record { sql = mysql_count; prev_error = none; prev_sql = none }

-- A model that knows one answer.
abbrev pub model : Text → Reply
model message = said redshift_count

abbrev helpless : Text → Reply
helpless message = said (codes "-- UNTRANSLATABLE: upsert")

abbrev translated : TranslateResp ℕ
translated = record {
  redshift_sql = redshift_count;
  used_rules = codes "schema_prefix.md" ∷ [];
  latency_ms = 40;
  attempt = initial;
  examples_hit = 1;
  examples = record { similarity = 100; mysql_sql = mysql_count } ∷ [];
}

translates :
    (translate by_length ascii documents config model never 6 40 asked seeded).0 ≡ ok translated
unfolding importing
translates = refl

refuses :
    (translate by_length ascii documents config helpless never 6 40 asked seeded).0
    ≡ http 422 (codes "-- UNTRANSLATABLE: upsert")
unfolding importing
refuses = refl

translate-ok_example : IsStripped redshift_count × (is_untranslatable ascii redshift_count ≡ false)
translate-ok_example =
    translate-ok by_length ascii documents config model never 6 40 asked seeded translated
      translates

translate-http_example :
    Fails ascii
      (helpless (
        user_message by_length ascii documents asked
          (examples_for by_length config never 6 asked seeded).0))
      422
      (codes "-- UNTRANSLATABLE: upsert")
translate-http_example =
    translate-http by_length ascii documents config helpless never 6 40 asked seeded 422
      (codes "-- UNTRANSLATABLE: upsert") refuses

translate-counts_example :
    AllCount by_length
      (ids_of by_length (examples_for by_length config never 6 asked seeded).0)
      seeded.rows
      (translate by_length ascii documents config model never 6 40 asked seeded).1.rows
    × (truthy none ≡ true → (examples_for by_length config never 6 asked seeded).0 ≡ [])
translate-counts_example =
    translate-counts by_length ascii documents config model never 6 40 asked seeded

-- Both databases answer with one row.
abbrev one_row : ℕ → Cursor hundredths
one_row n = record {
  description = some (codes "total" ∷ []);
  rows = (Value.int (pos n) ∷ []) ∷ [];
  latency_ms = 3;
}

abbrev pub environment : ℕ → Environment hundredths
environment n = record {
  ask = model;
  run_mysql = λ sql. Executed.fetched (one_row 4);
  run_redshift = λ sql. Executed.fetched (one_row n);
  translate_ms = 40;
  translated_at = 6;
  saved_at = 7;
  fails_retrieval = never;
  fails_save = never;
}

abbrev pub request : ImportTestReq
request = record { mysql_sql = mysql_count; compare_mode = codes "strict"; force_save = false }

-- The run of an import that the comparison accepts, and of one that it rejects.
abbrev pub outcome : ℕ → Option (ImportTestResp hundredths) × Table ℕ
outcome n = import_test hundredths by_length ascii documents config (environment n) request seeded

abbrev pub resp_of : Option (ImportTestResp hundredths) → ImportTestResp hundredths
resp_of (some resp) = resp
resp_of none = blank_resp hundredths request

abbrev pub end_of : ℕ → ImportTestResp hundredths
end_of n = resp_of (outcome n).0

accepted_end : outcome 4 ≡ (some (end_of 4), (outcome 4).1)
unfolding importing
accepted_end = refl

rejected_end : outcome 5 ≡ (some (end_of 5), (outcome 5).1)
unfolding importing
rejected_end = refl

import_test-Ends_example :
    Ends hundredths by_length ascii documents config
      (environment 4)
      request
      (translation_of hundredths by_length ascii documents config (environment 4) request seeded).0
      (translation_of hundredths by_length ascii documents config (environment 4) request seeded).1
      (outcome 4)
import_test-Ends_example =
    import_test-Ends hundredths by_length ascii documents config (environment 4) request seeded

import_test-Imported_example :
    Imported hundredths by_length ascii documents config
      (environment 4)
      request
      (translation_of hundredths by_length ascii documents config (environment 4) request seeded).0
      (end_of 4)
      1
      (outcome 4).1
unfolding importing
import_test-Imported_example =
    import_test-Imported hundredths by_length ascii documents config (environment 4) request seeded
      (outcome 4).1 (end_of 4) 1 accepted_end refl
