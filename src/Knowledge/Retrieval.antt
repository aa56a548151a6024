-- ===== src/Knowledge/Retrieval.antt =====
-- What a retrieval returns and what it counts.
use mysql_redshift_agent.Prelude.{
  ℕ, ◌+◌, ◌≤◌, ◌≡◌, refl, inl, inr, false, ◌||◌, not, List, [], ◌∷◌, map, length, All, Elem, arith,
  Bool-cases, if_both, if◌then◌else◌,
}
use mysql_redshift_agent.Text.{Text}
use mysql_redshift_agent.Knowledge.Table.{Entry, Table, Backend, Rows, bump, bump_ids, has_id}
use mysql_redshift_agent.Knowledge.Store.{
  Config, Faults, Hit, embedding, select_nearest, update_hits, is_enabled, select_hits, bump_hits,
  retrieve_similar,
}

module _ (b : Backend) where
  -- A hit shows a row of the table that is not below the threshold.
  pub record Comes (threshold : b.Score) (q : b.Vector) (rows : Rows b) (h : Hit b.Score)
      : Type 0 where
    pub row : Entry b.Vector
    pub stored : Elem row rows
    pub id : h.id ≡ row.id
    pub mysql_sql : h.mysql_sql ≡ row.mysql_sql
    pub redshift_sql : h.redshift_sql ≡ row.redshift_sql
    pub similarity : h.similarity ≡ b.similarity row.embedding q
    pub near : b.below h.similarity threshold ≡ false

  -- What the database does for ORDER BY … LIMIT k: k rows of the table at most.
  pub record SelectsRows : Type 0 where
    pub at_most : (v : b.Vector) (k : ℕ) (rows : Rows b) → length (b.nearest v k rows) ≤ k
    pub from_table :
        (v : b.Vector) (k : ℕ) (rows : Rows b) → All (λ e. Elem e rows) (b.nearest v k rows)

  select_hits-length :
      (threshold : b.Score) (q : b.Vector) (es : Rows b)
      → length (select_hits b threshold q es) ≤ length es
  unfolding select_hits
  select_hits-length threshold q [] = omega arith
  select_hits-length threshold q (e ∷ es) = ground (arith, select_hits-length threshold q es)

  select_hits-Comes :
      (threshold : b.Score) (q : b.Vector) (rows es : Rows b)
      → All (λ e. Elem e rows) es
      → All (Comes threshold q rows) (select_hits b threshold q es)
  unfolding select_hits
  select_hits-Comes threshold q rows [] h = tt
  select_hits-Comes threshold q rows (e ∷ es) h =
      elim (Bool-cases (b.below (b.similarity e.embedding q) threshold)) [
        | inl far ↦ rw far (select_hits-Comes threshold q rows es h.1)
        | inr near ↦ rw near (
          record {
            row = e;
            stored = h.0;
            id = refl;
            mysql_sql = refl;
            redshift_sql = refl;
            similarity = refl;
            near = near;
          },
          select_hits-Comes threshold q rows es h.1,
        )
      ]

  -- One row before and after: its key is kept, and it is counted once if its id is listed.
  pub record Counts (ids : List ℕ) (before after : Entry b.Vector) : Type 0 where
    pub id : after.id ≡ before.id
    pub mysql_sql : after.mysql_sql ≡ before.mysql_sql
    pub redshift_sql : after.redshift_sql ≡ before.redshift_sql
    pub hits : after.hit_count ≡ before.hit_count + (if has_id before.id ids then 1 else 0)

  abbrev pub AllCount : List ℕ → Rows b → Rows b → Type 0
  AllCount ids [] [] = Unit
  AllCount ids (e ∷ es) (f ∷ fs) = Counts ids e f × AllCount ids es fs
  AllCount ids [] (f ∷ fs) = ⊥
  AllCount ids (e ∷ es) [] = ⊥

  bump_ids-AllCount :
      (now : ℕ) (ids : List ℕ) (es : Rows b) → AllCount ids es (bump_ids b now ids es)
  unfolding bump_ids bump
  bump_ids-AllCount now ids [] = tt
  bump_ids-AllCount now ids (e ∷ es) = (ground arith, bump_ids-AllCount now ids es)

  pub no_ids-AllCount : (es : Rows b) → AllCount [] es es
  unfolding has_id
  no_ids-AllCount [] = tt
  no_ids-AllCount (e ∷ es) = (
    record { id = refl; mysql_sql = refl; redshift_sql = refl; hits = omega arith },
    no_ids-AllCount es,
  )

  abbrev pub ids_of : List (Hit b.Score) → List ℕ
  ids_of = map (λ h. h.id)

  abbrev CountsHits : Table b.Vector → List (Hit b.Score) × Table b.Vector → Type 0
  CountsHits t r = AllCount (ids_of r.0) t.rows r.1.rows

  bump_hits-counts :
      (fails : Faults) (now : ℕ) (hits : List (Hit b.Score)) (t : Table b.Vector)
      → CountsHits t (bump_hits b fails now hits t)
  unfolding bump_hits
  bump_hits-counts fails now [] t = no_ids-AllCount t.rows
  bump_hits-counts fails now (h ∷ hs) t =
      if_both (CountsHits t) (fails update_hits) _ _ (λ e. no_ids-AllCount t.rows)
        (λ e. bump_ids-AllCount now (ids_of (h ∷ hs)) t.rows)

  module _ (c : Config b.Score) (fails : Faults) (now : ℕ) (sql : Text) (k : ℕ)
      (threshold : b.Score) (t : Table b.Vector) where
    -- Whatever fails, the rows that a retrieval counts are exactly those that it returns, once each;
    -- nothing else of the table's keys and counters changes.
    pub retrieve_similar-counts : CountsHits t (retrieve_similar b c fails now sql k threshold t)
    unfolding retrieve_similar
    retrieve_similar-counts =
        if_both (CountsHits t) (not (is_enabled b c)) _ _ (λ e. no_ids-AllCount t.rows)
          (λ e.
            if_both (CountsHits t) (fails embedding || fails select_nearest) _ _
              (λ e'. no_ids-AllCount t.rows) (λ e'. bump_hits-counts fails now _ t))

    abbrev pub GoodHits : List (Hit b.Score) → Type 0
    GoodHits hits = (length hits ≤ k) × All (Comes threshold (b.embed_query sql) t.rows) hits

    abbrev Good : List (Hit b.Score) × Table b.Vector → Type 0
    Good r = GoodHits r.0

    bump_hits-Good :
        (hits : List (Hit b.Score)) → GoodHits hits → Good (bump_hits b fails now hits t)
    unfolding bump_hits
    bump_hits-Good [] g = g
    bump_hits-Good (h ∷ hs) g =
        if_both Good (fails update_hits) _ _ (λ e. (omega arith, tt)) (λ e. g)

    -- Where the database answers a selection with rows of the table, `top_k` at most, a retrieval returns
    -- at most `top_k` hits, each of which is a row of the table, with the row's
    -- statements, whose similarity to the statement is not below the threshold.
    pub retrieve_similar-GoodHits :
        SelectsRows → GoodHits (retrieve_similar b c fails now sql k threshold t).0
    unfolding retrieve_similar
    retrieve_similar-GoodHits s =
        if_both Good (not (is_enabled b c)) _ _ (λ e. (omega arith, tt))
          (λ e.
            if_both Good (fails embedding || fails select_nearest) _ _ (λ e'. (omega arith, tt))
              (λ e'. bump_hits-Good _ (
                omega (
                  arith,
                  select_hits-length threshold (b.embed_query sql)
                      (b.nearest (b.embed_query sql) k t.rows),
                  s.at_most (b.embed_query sql) k t.rows,
                ),
                select_hits-Comes threshold (b.embed_query sql) t.rows _
                    (s.from_table (b.embed_query sql) k t.rows),
              )))
