-- ===== src/Knowledge/Outcome.antt =====
-- The three ways in which `save_example` can end.
use mysql_redshift_agent.Prelude.{
  ℕ, ◌≡◌, refl, ◌⊎◌, inl, inr, true, false, ◌||◌, not, Option, none, some, arith, if_both,
  Option_both,
}
use mysql_redshift_agent.Text.{Unicode}
use mysql_redshift_agent.Knowledge.Table.{Table, Backend, Draft, storable, bump_id, upsert}
use mysql_redshift_agent.Knowledge.Filter.{is_low_value}
use mysql_redshift_agent.Knowledge.Store.{
  Config, Faults, embedding, select_nearest, update_hits, insert, is_enabled, bypass_filter,
  duplicate_of, insert_sample, dedup_or_insert, save_example,
}

module _ (b : Backend) (now : ℕ) (d : Draft) (t : Table b.Vector) where
  abbrev pub Result : Type 0
  Result = Option ℕ × Table b.Vector

  -- A duplicate of this id was found for a sample that is subject to the filters.
  pub record Bumped (c : Config b.Score) (r : Result) : Type 0 where
    pub existing : ℕ
    pub filtered : bypass_filter d.source ≡ false
    pub found :
        duplicate_of b c
          (b.embed_document d.mysql_sql)
          (b.nearest (b.embed_document d.mysql_sql) 1 t.rows)
        ≡ some existing
    pub result : r ≡ (some existing, record t { rows = bump_id b now existing t.rows })

  pub record Inserted (r : Result) : Type 0 where
    pub fits : storable d ≡ true
    pub result : r ≡ (
      some (upsert b now d (b.embed_document d.mysql_sql) t).0,
      (upsert b now d (b.embed_document d.mysql_sql) t).1,
    )

  -- Nothing was saved and nothing changed, a row was counted, or a row was written.
  abbrev pub Outcome : Config b.Score → Result → Type 0
  Outcome c r = (r ≡ (none, t)) ⊎ (Bumped c r ⊎ Inserted r)

  module _ (u : Unicode) (c : Config b.Score) (fails : Faults) where
    insert_sample-Outcome : Outcome c (insert_sample b fails now d (b.embed_document d.mysql_sql) t)
    unfolding insert_sample
    insert_sample-Outcome =
        if_both (Outcome c) (fails insert || not (storable d)) _ _ (λ e. inl refl)
          (λ e. inr (inr (record { fits = ground arith; result = refl })))

    dedup_or_insert-Outcome :
        bypass_filter d.source ≡ false
        → Outcome c (dedup_or_insert b c fails now d (b.embed_document d.mysql_sql) t)
    unfolding dedup_or_insert
    dedup_or_insert-Outcome f =
        if_both (Outcome c) (fails select_nearest) _ _ (λ e. inl refl)
          (λ e.
            Option_both (Outcome c)
              (duplicate_of b c (b.embed_document d.mysql_sql)
                (b.nearest (b.embed_document d.mysql_sql) 1 t.rows))
              _ _ (λ q. insert_sample-Outcome)
              (λ i q.
                if_both (Outcome c) (fails update_hits) _ _ (λ e'. inl refl)
                  (λ e'.
                    inr (inl (record { existing = i; filtered = f; found = q; result = refl })))))

    -- Every save ends in one of the three ways.
    pub save_example-Outcome : Outcome c (save_example b u c fails now d t)
    unfolding save_example
    save_example-Outcome =
        if_both (Outcome c) (not (is_enabled b c)) _ _ (λ e. inl refl)
          (λ e.
            if_both (Outcome c) (bypass_filter d.source) _ _
              (λ e'.
                if_both (Outcome c) (fails embedding) _ _ (λ q. inl refl)
                  (λ q. insert_sample-Outcome))
              (λ e'.
                Option_both (Outcome c) (is_low_value u d.mysql_sql d.redshift_sql d.row_count) _ _
                  (λ q.
                    if_both (Outcome c) (fails embedding) _ _ (λ p. inl refl)
                      (λ p. dedup_or_insert-Outcome e'))
                  (λ reason q. inl refl)))
