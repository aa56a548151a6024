-- ===== src/Knowledge/Table.antt =====
-- The table `sql_knowledge` of scripts/schema_pgvector.sql, and the effect of each statement that
-- agent/tools/sql_knowledge.py sends. What PostgreSQL, pgvector and the embedding model compute is a
-- parameter.
use mysql_redshift_agent.Prelude.{
  ℕ, ◌+◌, ◌^◌, Bool, true, false, ◌&&◌, ◌||◌, Option, none, some, List, [], ◌∷◌, ◌++◌, length, leb,
  ltb, ◌==◌, if◌then◌else◌,
}
use mysql_redshift_agent.Text.{Text, text_eq}
use mysql_redshift_agent.Value.{ℤ, pos, negsuc}

-- A row.
pub record Entry (Vector : Type 0) : Type 0 where
  pub id : ℕ
  pub mysql_sql : Text
  pub redshift_sql : Text
  pub embedding : Vector
  pub used_rules : List Text
  pub row_count : Option ℤ
  pub mysql_ms : Option ℤ
  pub redshift_ms : Option ℤ
  pub compare_mode : Text
  pub source : Text
  pub hit_count : ℕ
  pub created_at : ℕ
  pub last_used_at : ℕ

-- The table, and the sequence behind its BIGSERIAL column.
pub record Table (Vector : Type 0) : Type 0 where
  pub rows : List (Entry Vector)
  pub next_id : ℕ

-- `similarity a b` is `1 - (a <=> b)` and `below` and `at_least` are `<` and `>=` on such
-- numbers; `nearest v k` is
-- `ORDER BY embedding <=> v LIMIT k`, which an HNSW index answers; `latest_first` is
-- `ORDER BY last_used_at DESC`; `ilike s t` is `t ILIKE s`; `show_score` is the format `.2f`.
pub record Backend : Type 1 where
  pub Vector : Type 0
  pub Score : Type 0
  pub below : Score → Score → Bool
  pub at_least : Score → Score → Bool
  pub similarity : Vector → Vector → Score
  pub show_score : Score → Text
  pub show_nat : ℕ → Text
  pub md5 : Text → Text
  pub embed_query : Text → Vector
  pub embed_document : Text → Vector
  pub nearest : Vector → ℕ → List (Entry Vector) → List (Entry Vector)
  pub latest_first : List (Entry Vector) → List (Entry Vector)
  pub ilike : Text → Text → Bool

-- The values that an INSERT carries, beside the embedding.
pub record Draft : Type 0 where
  pub mysql_sql : Text
  pub redshift_sql : Text
  pub used_rules : List Text
  pub row_count : Option ℤ
  pub mysql_ms : Option ℤ
  pub redshift_ms : Option ℤ
  pub compare_mode : Text
  pub source : Text

-- An integer type holds the numbers from `- top` to `top - 1`.
unfoldable pub int_fits : ℕ → Option ℤ → Bool
int_fits top none = true
int_fits top (some (pos n)) = ltb n top
int_fits top (some (negsuc n)) = ltb n top

-- compare_mode and source are VARCHAR(16), row_count is BIGINT, and the times are INTEGER.
unfoldable pub storable : Draft → Bool
unfolding int_fits
storable s =
    leb (length s.compare_mode) 16
    && (leb (length s.source) 16
        && (int_fits (2 ^ 63) s.row_count
            && (int_fits (2 ^ 31) s.mysql_ms && int_fits (2 ^ 31) s.redshift_ms)))

-- `id = ANY(ids)`
unfoldable pub has_id : ℕ → List ℕ → Bool
has_id i [] = false
has_id i (j ∷ js) = i == j || has_id i js

module _ (b : Backend) where
  abbrev pub Rows : Type 0
  Rows = List (Entry b.Vector)

  -- SET hit_count=hit_count+1, last_used_at=NOW()
  unfoldable pub bump : ℕ → Entry b.Vector → Entry b.Vector
  bump now e = record e { hit_count = e.hit_count + 1; last_used_at = now }

  -- WHERE id=%s
  unfoldable pub bump_id : ℕ → ℕ → Rows → Rows
  bump_id now i [] = []
  bump_id now i (e ∷ es) = (if e.id == i then bump now e else e) ∷ bump_id now i es

  -- WHERE id = ANY(%s)
  unfoldable pub bump_ids : ℕ → List ℕ → Rows → Rows
  bump_ids now ids [] = []
  bump_ids now ids (e ∷ es) = (if has_id e.id ids then bump now e else e) ∷ bump_ids now ids es

  unfoldable pub new_entry : ℕ → ℕ → Draft → b.Vector → Entry b.Vector
  new_entry now i s vec = record {
    id = i;
    mysql_sql = s.mysql_sql;
    redshift_sql = s.redshift_sql;
    embedding = vec;
    used_rules = s.used_rules;
    row_count = s.row_count;
    mysql_ms = s.mysql_ms;
    redshift_ms = s.redshift_ms;
    compare_mode = s.compare_mode;
    source = s.source;
    hit_count = 0;
    created_at = now;
    last_used_at = now;
  }

  -- DO UPDATE SET …
  unfoldable pub overwrite : ℕ → Draft → b.Vector → Entry b.Vector → Entry b.Vector
  overwrite now s vec e = record e {
    redshift_sql = s.redshift_sql;
    embedding = vec;
    used_rules = s.used_rules;
    row_count = s.row_count;
    mysql_ms = s.mysql_ms;
    redshift_ms = s.redshift_ms;
    compare_mode = s.compare_mode;
    source = s.source;
    last_used_at = now;
  }

  -- The row that a new one conflicts with on (md5(mysql_sql)).
  unfoldable pub conflicting : Text → Rows → Option (Entry b.Vector)
  conflicting sql [] = none
  conflicting sql (e ∷ es) =
      if text_eq (b.md5 e.mysql_sql) (b.md5 sql) then some e else conflicting sql es

  unfoldable pub overwrite_conflicting : ℕ → Draft → b.Vector → Rows → Rows
  overwrite_conflicting now s vec [] = []
  overwrite_conflicting now s vec (e ∷ es) =
      (if text_eq (b.md5 e.mysql_sql) (b.md5 s.mysql_sql) then overwrite now s vec e else e)
      ∷ overwrite_conflicting now s vec es

  -- INSERT … ON CONFLICT … RETURNING id. The sequence advances on a conflict too.
  unfoldable pub upsert : ℕ → Draft → b.Vector → Table b.Vector → ℕ × Table b.Vector
  upsert now s vec t = elim (conflicting s.mysql_sql t.rows) [
    | some e ↦
        (e.id, record { rows = overwrite_conflicting now s vec t.rows; next_id = t.next_id + 1 })
    | none ↦ (
      t.next_id,
      record { rows = t.rows ++ new_entry now t.next_id s vec ∷ []; next_id = t.next_id + 1 },
    )
  ]

  -- DELETE … WHERE id=%s, and its rowcount
  unfoldable pub delete_id : ℕ → Rows → ℕ × Rows
  delete_id i [] = (0, [])
  delete_id i (e ∷ es) =
      let (n, rest) = delete_id i es in if e.id == i then (n + 1, rest) else (n, e ∷ rest)

  -- WHERE mysql_sql ILIKE %s OR redshift_sql ILIKE %s, with the pattern %search%
  unfoldable pub matches_search : Text → Entry b.Vector → Bool
  matches_search search e =
      let pattern_ = b'%' ∷ search ++ b'%' ∷ [] in
      b.ilike pattern_ e.mysql_sql || b.ilike pattern_ e.redshift_sql
