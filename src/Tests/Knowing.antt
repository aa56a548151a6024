-- ===== src/Tests/Knowing.antt =====
-- Runs of the knowledge base, and its theorems at a table with one seeded row.
use mathlib.Core.Bool.{xor}
use mysql_redshift_agent.Prelude.{
  ℕ, Bool, ◌≡◌, ◌⊎◌, ◌↔◌, ◌==◌, refl, true, not, none, some, [], map, Elem, filter_by,
}
use mysql_redshift_agent.Text.{
  Text, codes, text_eq, is_space, is_digit, is_word, strip, lstrip, rstrip, rstrip_by,
}
use mysql_redshift_agent.Regex.{
  run, search_from, found, accepts, fold_case, at_boundary, at_start, at_end, or_else, matches_here,
}
use mysql_redshift_agent.Value.{pos}
use mysql_redshift_agent.Knowledge.Table.{
  Draft, bump, bump_id, bump_ids, has_id, new_entry, overwrite, conflicting, overwrite_conflicting,
  upsert, delete_id, matches_search, storable,
}
use mysql_redshift_agent.Knowledge.Filter.{is_low_value, is_zero, low_value_prefix}
use mysql_redshift_agent.Knowledge.Store.{
  is_empty, is_enabled, bypass_filter, import_, select_hits, bump_hits, retrieve_similar,
  duplicate_of, insert_sample, dedup_or_insert, save_example, list_entries, count_entries,
  delete_entry,
}
use mysql_redshift_agent.Knowledge.Admin.{delete_entry_lem}
use mysql_redshift_agent.Knowledge.Saving.{Holds, save_example-Holds}
use mysql_redshift_agent.Knowledge.View.{SameView, UpdatedView, save_example-UpdatedView}
use mysql_redshift_agent.Knowledge.Retrieval.{GoodHits, retrieve_similar-GoodHits}
use mysql_redshift_agent.Knowledge.History.{serve, serve_one, table_after}
use mysql_redshift_agent.Tests.Fixtures.{
  ascii, by_length, by_length-SelectsRows, config, never, mysql_count, redshift_count, seeded,
}

unfoldable pub storing : Unit {0}
unfolding xor run search_from found matches_here accepts fold_case at_boundary at_start at_end
    or_else is_space is_digit is_word text_eq strip lstrip rstrip rstrip_by is_empty is_enabled
    bypass_filter is_low_value is_zero low_value_prefix bump bump_id bump_ids has_id new_entry
    overwrite conflicting overwrite_conflicting upsert delete_id matches_search storable select_hits
    bump_hits retrieve_similar duplicate_of insert_sample dedup_or_insert save_example list_entries
    count_entries delete_entry serve serve_one table_after
storing = tt

abbrev draft_of : Text → Text → Text → Draft
draft_of sql translation source = record {
  mysql_sql = sql;
  redshift_sql = translation;
  used_rules = [];
  row_count = some (pos 2);
  mysql_ms = none;
  redshift_ms = none;
  compare_mode = codes "strict";
  source = source;
}

abbrev known : Draft
known = draft_of mysql_count redshift_count import_

abbrev pub near : Draft
near = draft_of mysql_count redshift_count (codes "auto")

abbrev shown_tables : Draft
shown_tables = draft_of (codes " show tables") redshift_count (codes "auto")

-- A second import of a statement overwrites its row and keeps the id.
overwrites : (save_example by_length ascii config never 9 known seeded).0 ≡ some 1
unfolding storing
overwrites = refl

refuses : (save_example by_length ascii config never 9 shown_tables seeded).0 ≡ none
unfolding storing
refuses = refl

save_example-Holds_example :
    (i : ℕ) × ((save_example by_length ascii config never 9 known seeded).0 ≡ some i)
    × Holds by_length ascii config never 9 known seeded i
        (save_example by_length ascii config never 9 known seeded).1.rows
unfolding storing
save_example-Holds_example =
    save_example-Holds by_length ascii config never 9 known seeded refl (λ s. refl) refl refl

retrieve_similar-GoodHits_example :
    GoodHits by_length config never 9 mysql_count 3 85 seeded
      (retrieve_similar by_length config never 9 mysql_count 3 85 seeded).0
retrieve_similar-GoodHits_example =
    retrieve_similar-GoodHits by_length config never 9 mysql_count 3 85 seeded by_length-SelectsRows

save_example-UpdatedView_example :
    (SameView by_length ascii config never 9 known seeded
        (save_example by_length ascii config never 9 known seeded).1
      × ((bypass_filter known.source ≡ true)
          → (save_example by_length ascii config never 9 known seeded).0 ≡ none))
    ⊎ (UpdatedView by_length ascii config never 9 known seeded
          (save_example by_length ascii config never 9 known seeded).1
        × ¬ ((save_example by_length ascii config never 9 known seeded).0 ≡ none))
save_example-UpdatedView_example =
    save_example-UpdatedView by_length ascii config never 9 known seeded

delete_entry_lem_example :
    (done : Bool) × (delete_entry by_length config never 1 seeded
      ≡ some (done, record seeded { rows = filter_by (λ e. not (e.id == 1)) seeded.rows }))
    × ((done ≡ true) ↔ Elem 1 (map (λ e. e.id) seeded.rows))
unfolding storing
delete_entry_lem_example = delete_entry_lem by_length config never 1 seeded refl refl
