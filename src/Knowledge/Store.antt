-- ===== src/Knowledge/Store.antt =====
-- The operations of agent/tools/sql_knowledge.py on the table. A step that reaches out (the embedding
-- model, or one connection with its statement and commit) fails where the function `fails` says so;
-- a failed step leaves the table as it was.
use mysql_redshift_agent.Prelude.{
  ℕ, suc, Bool, true, false, ◌&&◌, ◌||◌, not, Option, none, some, List, [], ◌∷◌, ◌++◌, map, length,
  take, drop, filter_by, ltb, if◌then◌else◌,
}
use mysql_redshift_agent.Text.{Text, Unicode, codes, text_eq, join}
use mysql_redshift_agent.Knowledge.Table.{
  Entry, Table, Backend, Draft, storable, Rows, bump_id, bump_ids, upsert, delete_id,
  matches_search,
}
use mysql_redshift_agent.Knowledge.Filter.{is_low_value}

-- The environment variables PG_HOST, PG_PASSWORD, TOP_K, THRESHOLD and DEDUP_THRESHOLD.
pub record Config (Score : Type 0) : Type 0 where
  pub host : Text
  pub password : Text
  pub top_k : ℕ
  pub threshold : Score
  pub dedup_threshold : Score

pub data Step : Type 0 where
  embedding select_nearest update_hits insert select_entries select_count delete : Step

abbrev pub Faults : Type 0
Faults = Step → Bool

-- An item of the list that `retrieve_similar` returns.
pub record Hit (Score : Type 0) : Type 0 where
  pub id : ℕ
  pub mysql_sql : Text
  pub redshift_sql : Text
  pub similarity : Score

unfoldable pub is_empty : Text → Bool
is_empty [] = true
is_empty (c ∷ s) = false

abbrev pub seed : Text
seed = codes "seed"

abbrev pub import_ : Text
import_ = codes "import"

-- `source in ("seed", "import")`
unfoldable pub bypass_filter : Text → Bool
bypass_filter source = text_eq source seed || text_eq source import_

module _ (b : Backend) where
  unfoldable pub is_enabled : Config b.Score → Bool
  unfolding is_empty
  is_enabled c = not (is_empty c.host) && not (is_empty c.password)

  -- The loop over the selected rows.
  unfoldable pub select_hits : b.Score → b.Vector → Rows b → List (Hit b.Score)
  select_hits threshold q [] = []
  select_hits threshold q (e ∷ es) =
      if b.below (b.similarity e.embedding q) threshold
      then select_hits threshold q es
      else record {
        id = e.id;
        mysql_sql = e.mysql_sql;
        redshift_sql = e.redshift_sql;
        similarity = b.similarity e.embedding q;
      }
        ∷ select_hits threshold q es

  -- `if out:` and the return
  unfoldable pub bump_hits :
      Faults → ℕ → List (Hit b.Score) → Table b.Vector → List (Hit b.Score) × Table b.Vector
  bump_hits fails now [] t = ([], t)
  bump_hits fails now (h ∷ hs) t =
      if fails update_hits
      then ([], t)
      else (h ∷ hs, record t { rows = bump_ids b now (map (λ x. x.id) (h ∷ hs)) t.rows })

  unfoldable pub retrieve_similar :
      Config b.Score
      → Faults
      → ℕ
      → Text
      → ℕ
      → b.Score
      → Table b.Vector
      → List (Hit b.Score) × Table b.Vector
  retrieve_similar c fails now sql top_k threshold t =
      if not (is_enabled c)
      then ([], t)
      else if fails embedding || fails select_nearest
      then ([], t)
      else bump_hits fails now
          (select_hits threshold (b.embed_query sql) (b.nearest (b.embed_query sql) top_k t.rows)) t

  -- The row that the deduplication finds: the nearest one, if it is near enough.
  unfoldable pub duplicate_of : Config b.Score → b.Vector → Rows b → Option ℕ
  duplicate_of c vec [] = none
  duplicate_of c vec (e ∷ es) =
      if b.at_least (b.similarity e.embedding vec) c.dedup_threshold then some e.id else none

  unfoldable pub insert_sample :
      Faults → ℕ → Draft → b.Vector → Table b.Vector → Option ℕ × Table b.Vector
  insert_sample fails now d vec t =
      if fails insert || not (storable d)
      then (none, t)
      else let (rid, t') = upsert b now d vec t in (some rid, t')

  -- The deduplication of a sample that does not bypass the filters, and the INSERT.
  unfoldable pub dedup_or_insert :
      Config b.Score → Faults → ℕ → Draft → b.Vector → Table b.Vector → Option ℕ × Table b.Vector
  dedup_or_insert c fails now d vec t =
      if fails select_nearest
      then (none, t)
      else elim (duplicate_of c vec (b.nearest vec 1 t.rows)) [
        | some existing_id ↦
            if fails update_hits
            then (none, t)
            else (some existing_id, record t { rows = bump_id b now existing_id t.rows })
        | none ↦ insert_sample fails now d vec t
      ]

  unfoldable pub save_example :
      Unicode → Config b.Score → Faults → ℕ → Draft → Table b.Vector → Option ℕ × Table b.Vector
  save_example u c fails now d t =
      if not (is_enabled c)
      then (none, t)
      else if bypass_filter d.source
      then (if fails embedding
          then (none, t)
          else insert_sample fails now d (b.embed_document d.mysql_sql) t)
      else elim (is_low_value u d.mysql_sql d.redshift_sql d.row_count) [
        | some reason ↦ (none, t)
        | none ↦
            if fails embedding
            then (none, t)
            else dedup_or_insert c fails now d (b.embed_document d.mysql_sql) t
      ]

  -- The three operations below have no handler: `none` is an exception.
  unfoldable pub list_entries :
      Config b.Score → Faults → ℕ → ℕ → Text → Table b.Vector → Option (List (Entry b.Vector))
  unfolding is_empty
  list_entries c fails limit offset search t =
      if not (is_enabled c)
      then some []
      else if fails select_entries
      then none
      else some (
          take limit (
            drop offset (
              b.latest_first
                (if is_empty search then t.rows else filter_by (matches_search b search) t.rows))))

  unfoldable pub count_entries : Config b.Score → Faults → Text → Table b.Vector → Option ℕ
  unfolding is_empty
  count_entries c fails search t =
      if not (is_enabled c)
      then some 0
      else if fails select_count
      then none
      else some
          (length (if is_empty search then t.rows else filter_by (matches_search b search) t.rows))

  unfoldable pub delete_entry :
      Config b.Score → Faults → ℕ → Table b.Vector → Option (Bool × Table b.Vector)
  delete_entry c fails entry_id t =
      if not (is_enabled c)
      then some (false, t)
      else if fails delete
      then none
      else let (n, rows) = delete_id b entry_id t.rows in some (ltb 0 n, record t { rows = rows })

  -- One example of the prompt.
  unfoldable pub example_text : ℕ → Hit b.Score → Text
  example_text i ex =
      10
      ∷ (codes "示例 "
          ++ b.show_nat i
          ++ codes "（相似度 "
          ++ b.show_score ex.similarity
          ++ codes "）："
          ++ 10
            ∷ (codes "MySQL:"
                ++ 10 ∷ ex.mysql_sql
                ++ 10 ∷ (codes "Redshift:" ++ 10 ∷ ex.redshift_sql ++ 10 ∷ [])))

  unfoldable pub example_texts : ℕ → List (Hit b.Score) → List Text
  example_texts i [] = []
  example_texts i (ex ∷ exs) = example_text i ex ∷ example_texts (suc i) exs

  unfoldable pub format_examples_for_prompt : List (Hit b.Score) → Text
  format_examples_for_prompt [] = []
  format_examples_for_prompt (ex ∷ exs) =
      join (10 ∷ []) (codes "以下是历史成功翻译的相似样例（供参考，请结合当前 SQL 结构独立思考）：" ∷ example_texts 1 (ex ∷ exs))
