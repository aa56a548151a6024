-- ===== src/Knowledge/Saving.antt =====
-- What a save does to the table.
use mysql_redshift_agent.Prelude.{
  ℕ, ◌+◌, ◌≤◌, ◌≡◌, ◌≢◌, refl, ap, sym, ◌⊎◌, inl, inr, true, false, none, some, [], ◌∷◌, ◌++◌,
  length, arith, Bool-cases, Option-cases,
}
use mysql_redshift_agent.Text.{Unicode, strip}
use mysql_redshift_agent.Text.Laws.{text_eq_iff, text_eq_refl}
use mysql_redshift_agent.Regex.{matches_here}
use mysql_redshift_agent.Value.{pos}
use mysql_redshift_agent.Knowledge.Table.{
  Entry, Table, Backend, Draft, storable, Rows, bump_id, new_entry, overwrite, conflicting,
  overwrite_conflicting, upsert,
}
use mysql_redshift_agent.Knowledge.Filter.{
  is_zero, is_low_value, low_value_prefix, min_redshift_sql_len,
}
use mysql_redshift_agent.Knowledge.Store.{
  Config, Faults, Step, embedding, insert, select_nearest, update_hits, is_enabled, bypass_filter,
  duplicate_of, insert_sample, dedup_or_insert, save_example,
}
use mysql_redshift_agent.Knowledge.Outcome.{save_example-Outcome}
use mysql_redshift_agent.Knowledge.Valid.{
  SameKeys, SameKeys-refl, bump_id-SameKeys, overwrite_conflicting-SameKeys,
}
use mathlib.Core.List.{append-nil}

module _ (b : Backend) (u : Unicode) (c : Config b.Score) (fails : Faults) (now : ℕ) (d : Draft)
    (t : Table b.Vector) where
  -- A save that returns no id has changed nothing.
  pub save_example-none :
      (save_example b u c fails now d t).0 ≡ none → (save_example b u c fails now d t).1 ≡ t
  save_example-none h = elim (save_example-Outcome b now d t u c fails) [
    | inl e ↦ ap (λ r. r.1) e
    | inr (inl r) ↦ absurd (cc (h, r.result))
    | inr (inr r) ↦ absurd (cc (h, r.result))
  ]

  -- The rows after a save: those that were there, with their ids and statements in their order, and
  -- behind them at most one more.
  pub record Grown (after : Table b.Vector) : Type 0 where
    pub kept : Rows b
    pub added : Rows b
    pub splits : after.rows ≡ kept ++ added
    pub same_keys : SameKeys b kept t.rows
    pub at_most_one : length added ≤ 1

  upsert-Grown : (vec : b.Vector) → Grown (upsert b now d vec t).1
  unfolding upsert
  upsert-Grown vec = elim (Option-cases (conflicting b d.mysql_sql t.rows)) [
    | inl new ↦
        rw (new, upsert)
          (record {
            kept = t.rows;
            added = new_entry b now t.next_id d vec ∷ [];
            splits = refl;
            same_keys = SameKeys-refl b t.rows;
            at_most_one = omega arith;
          })
    | inr (e, old) ↦
        rw (old, upsert)
          (record {
            kept = overwrite_conflicting b now d vec t.rows;
            added = [];
            splits = sym (append-nil _);
            same_keys = overwrite_conflicting-SameKeys b now d vec t.rows;
            at_most_one = omega arith;
          })
  ]

  -- A save never removes a row, never changes an id or a statement of one, and adds one at most.
  pub save_example-Grown : Grown (save_example b u c fails now d t).1
  save_example-Grown = elim (save_example-Outcome b now d t u c fails) [
    | inl e ↦ rw e (record {
      kept = t.rows;
      added = [];
      splits = sym (append-nil _);
      same_keys = SameKeys-refl b t.rows;
      at_most_one = omega arith;
    })
    | inr (inl r) ↦ rw r.result (record {
      kept = bump_id b now r.existing t.rows;
      added = [];
      splits = sym (append-nil _);
      same_keys = bump_id-SameKeys b now r.existing t.rows;
      at_most_one = omega arith;
    })
    | inr (inr r) ↦ rw r.result (upsert-Grown (b.embed_document d.mysql_sql))
  ]

  low_value_found :
      (d.row_count ≡ some (pos 0))
        ⊎ ((length (strip d.redshift_sql) + 1 ≤ min_redshift_sql_len)
            ⊎ (matches_here u low_value_prefix d.mysql_sql ≡ true))
      → is_low_value u d.mysql_sql d.redshift_sql d.row_count ≢ none
  unfolding is_low_value is_zero
  low_value_found (inl e) = rw e (λ p. cc)
  low_value_found (inr (inl s)) = ground arith
  low_value_found (inr (inr m)) = rw m (ground arith)

  -- A sample of another source than seed and import that has no rows, or whose translation has
  -- fewer than 30 characters between its white space, or whose statement begins with a management
  -- command, is not saved, and the table stays as it is.
  pub save_example-low_value :
      bypass_filter d.source ≡ false
      → (d.row_count ≡ some (pos 0))
        ⊎ ((length (strip d.redshift_sql) + 1 ≤ min_redshift_sql_len)
            ⊎ (matches_here u low_value_prefix d.mysql_sql ≡ true))
      → save_example b u c fails now d t ≡ (none, t)
  unfolding save_example
  save_example-low_value f h =
      elim (Option-cases (is_low_value u d.mysql_sql d.redshift_sql d.row_count)) [
        | inl e ↦ absurd (low_value_found h e)
        | inr (reason, e) ↦
            rw (f, e, save_example)
              (elim (Bool-cases (is_enabled b c)) [ inl on ↦ rw on | inr off ↦ rw off ])
      ]

  -- The row that a later save of the same statement would meet holds this sample, under a statement of
  -- the same md5.
  pub record Holds (i : ℕ) (rows : Rows b) : Type 0 where
    pub row : Entry b.Vector
    pub found : conflicting b d.mysql_sql rows ≡ some row
    pub mysql_sql : b.md5 row.mysql_sql ≡ b.md5 d.mysql_sql
    pub id : row.id ≡ i
    pub redshift_sql : row.redshift_sql ≡ d.redshift_sql
    pub embedding : row.embedding ≡ b.embed_document d.mysql_sql
    pub used_rules : row.used_rules ≡ d.used_rules
    pub row_count : row.row_count ≡ d.row_count
    pub mysql_ms : row.mysql_ms ≡ d.mysql_ms
    pub redshift_ms : row.redshift_ms ≡ d.redshift_ms
    pub compare_mode : row.compare_mode ≡ d.compare_mode
    pub source : row.source ≡ d.source
    pub last_used_at : row.last_used_at ≡ now

  conflicting-snoc :
      (f : Entry b.Vector) (es : Rows b)
      → f.mysql_sql ≡ d.mysql_sql
      → conflicting b d.mysql_sql es ≡ none
      → conflicting b d.mysql_sql (es ++ f ∷ []) ≡ some f
  unfolding conflicting
  conflicting-snoc f [] q new = rw (ap b.md5 q, text_eq_refl (b.md5 d.mysql_sql))
  conflicting-snoc f (e ∷ es) q new = ground (arith, conflicting-snoc f es q)

  conflicting-overwrite :
      (vec : b.Vector) (e : Entry b.Vector) (es : Rows b)
      → conflicting b d.mysql_sql es ≡ some e
      → conflicting b d.mysql_sql (overwrite_conflicting b now d vec es)
        ≡ some (overwrite b now d vec e)
  unfolding conflicting overwrite_conflicting overwrite
  conflicting-overwrite vec e [] h = cc
  conflicting-overwrite vec e (x ∷ es) h = ground (arith, conflicting-overwrite vec e es)

  conflicting-md5 :
      (e : Entry b.Vector) (es : Rows b)
      → conflicting b d.mysql_sql es ≡ some e
      → b.md5 e.mysql_sql ≡ b.md5 d.mysql_sql
  unfolding conflicting
  conflicting-md5 e [] h = cc
  conflicting-md5 e (x ∷ es) h =
      ground (arith, text_eq_iff (b.md5 x.mysql_sql) (b.md5 d.mysql_sql), conflicting-md5 e es)

  upsert-Holds :
      Holds
        (upsert b now d (b.embed_document d.mysql_sql) t).0
        (upsert b now d (b.embed_document d.mysql_sql) t).1.rows
  unfolding upsert new_entry overwrite
  upsert-Holds = elim (Option-cases (conflicting b d.mysql_sql t.rows)) [
    | inl new ↦
        let f = new_entry b now t.next_id d (b.embed_document d.mysql_sql) in
        rw (new, upsert)
          (record {
            row = f;
            found = conflicting-snoc f t.rows refl new;
            mysql_sql = refl;
            id = refl;
            redshift_sql = refl;
            embedding = refl;
            used_rules = refl;
            row_count = refl;
            mysql_ms = refl;
            redshift_ms = refl;
            compare_mode = refl;
            source = refl;
            last_used_at = refl;
          })
    | inr (e, old) ↦
        rw (old, upsert)
          (record {
            row = overwrite b now d (b.embed_document d.mysql_sql) e;
            found = conflicting-overwrite (b.embed_document d.mysql_sql) e t.rows old;
            mysql_sql = conflicting-md5 e t.rows old;
            id = refl;
            redshift_sql = refl;
            embedding = refl;
            used_rules = refl;
            row_count = refl;
            mysql_ms = refl;
            redshift_ms = refl;
            compare_mode = refl;
            source = refl;
            last_used_at = refl;
          })
  ]

  -- A save with source seed or import that returns an id has left a row of that id that holds the
  -- sample, whether the statement was known or not.
  pub save_example-some :
      (i : ℕ)
      → bypass_filter d.source ≡ true
      → (save_example b u c fails now d t).0 ≡ some i
      → Holds i (save_example b u c fails now d t).1.rows
  save_example-some i by h = elim (save_example-Outcome b now d t u c fails) [
    | inl e ↦ absurd (cc (h, e))
    | inr (inl r) ↦ absurd (cc (by, r.filtered))
    | inr (inr r) ↦
        let q : (upsert b now d (b.embed_document d.mysql_sql) t).0 ≡ i = cc (h, r.result) in
        rw (ap (λ x. x.1) r.result, ← q) upsert-Holds
  ]

  -- A save with source seed or import that fits the columns, on a configured knowledge base whose
  -- steps do not fail, returns an id, and the row of that id holds the sample, whether the statement
  -- was known or not.
  pub save_example-Holds :
      is_enabled b c ≡ true
      → ((s : Step) → fails s ≡ false)
      → bypass_filter d.source ≡ true
      → storable d ≡ true
      → (i : ℕ) × ((save_example b u c fails now d t).0 ≡ some i)
        × Holds i (save_example b u c fails now d t).1.rows
  unfolding save_example insert_sample
  save_example-Holds on up by fits =
      rw (on, by, up embedding, up insert, fits)
        ((upsert b now d (b.embed_document d.mysql_sql) t).0, refl, upsert-Holds)

  -- A sample of another source than seed and import that is not of low value and whose nearest row is
  -- similar enough, saved on a configured knowledge base whose steps do not fail, returns the id of that
  -- row, and the table differs in that row's hit count and last use only.
  pub save_example-dedup :
      is_enabled b c ≡ true
      → ((s : Step) → fails s ≡ false)
      → bypass_filter d.source ≡ false
      → is_low_value u d.mysql_sql d.redshift_sql d.row_count ≡ none
      → (e : Entry b.Vector) (es : Rows b)
      → b.nearest (b.embed_document d.mysql_sql) 1 t.rows ≡ e ∷ es
      → b.at_least (b.similarity e.embedding (b.embed_document d.mysql_sql)) c.dedup_threshold
        ≡ true
      → save_example b u c fails now d t
        ≡ (some e.id, record t { rows = bump_id b now e.id t.rows })
  unfolding save_example dedup_or_insert duplicate_of
  save_example-dedup on up by low e es near similar =
      rw (on, by, low, up embedding, up select_nearest, near, similar, up update_hits)
