-- ===== src/Knowledge/Known.antt =====
-- What one statement leaves: a valid table, and requests that hold ids below the sequence.
use mathlib.Core.Path.{subst}
use mysql_redshift_agent.Prelude.{
  ℕ, ◌<◌, ◌≤◌, ◌≡◌, refl, inl, inr, Bool, ◌||◌, not, Option, none, some, List, [], ◌∷◌, All,
  All-Elem, Elem, Option-cases, if_both, if◌then◌else◌, arith,
}
use mysql_redshift_agent.Text.{Text, Unicode}
use mysql_redshift_agent.Knowledge.Table.{
  Entry, Rows, Table, Backend, Draft, bump_id, conflicting, upsert, storable,
}
use mysql_redshift_agent.Knowledge.Filter.{LowValue, is_low_value}
use mysql_redshift_agent.Knowledge.Store.{
  Config, Faults, Hit, is_enabled, embedding, select_nearest, update_hits, insert, delete,
  bypass_filter, select_hits, bump_hits, duplicate_of, insert_sample, delete_entry,
}
use mysql_redshift_agent.Knowledge.Retrieval.{SelectsRows}
use mysql_redshift_agent.Knowledge.Valid.{
  IsValid, upsert-IsValid, bump_hits-IsValid, SameKeys-IsValid, bump_id-SameKeys,
  delete_entry-IsValid,
}
use mysql_redshift_agent.Knowledge.Steps.{
  Place, saving, comparing, bumping, inserting, saved, searching, counting, found, deleting,
  deleted, prepare, next_save, next_search, search, end_delete, step,
}

module _ (b : Backend) where
  -- The ids that a request holds or has returned
  abbrev pub IsKnown : ℕ → Place b → Type 0
  IsKnown n (saving d) = Unit
  IsKnown n (comparing d vec) = Unit
  IsKnown n (bumping i) = i < n
  IsKnown n (inserting d vec) = Unit
  IsKnown n (saved none) = Unit
  IsKnown n (saved (some i)) = i < n
  IsKnown n (searching sql k threshold) = Unit
  IsKnown n (counting hits) = All (λ h. h.id < n) hits
  IsKnown n (found hits) = All (λ h. h.id < n) hits
  IsKnown n (deleting i) = Unit
  IsKnown n (deleted o) = Unit

  hits-weaken :
      (n m : ℕ) (hs : List (Hit b.Score)) → n ≤ m → All (λ h. h.id < n) hs → All (λ h. h.id < m) hs
  hits-weaken n m [] le h = tt
  hits-weaken n m (x ∷ hs) le h = (omega arith, hits-weaken n m hs le h.1)

  pub IsKnown-weaken : (n m : ℕ) (p : Place b) → n ≤ m → IsKnown n p → IsKnown m p
  IsKnown-weaken n m (saving d) le h = tt
  IsKnown-weaken n m (comparing d vec) le h = tt
  IsKnown-weaken n m (bumping i) le h = omega arith
  IsKnown-weaken n m (inserting d vec) le h = tt
  IsKnown-weaken n m (saved none) le h = tt
  IsKnown-weaken n m (saved (some i)) le h = omega arith
  IsKnown-weaken n m (searching sql k threshold) le h = tt
  IsKnown-weaken n m (counting hits) le h = hits-weaken n m hits le h
  IsKnown-weaken n m (found hits) le h = hits-weaken n m hits le h
  IsKnown-weaken n m (deleting i) le h = tt
  IsKnown-weaken n m (deleted o) le h = tt

  pub places-weaken :
      (n m : ℕ) (ps : List (Place b)) → n ≤ m → All (IsKnown n) ps → All (IsKnown m) ps
  places-weaken n m [] le h = tt
  places-weaken n m (p ∷ ps) le h = (IsKnown-weaken n m p le h.0, places-weaken n m ps le h.1)

  -- What a statement leaves: a valid table, a sequence that has not gone back, and known ids
  abbrev pub Leaves : Table b.Vector → Table b.Vector × Place b → Type 0
  Leaves t r = IsValid b r.0 × (t.next_id ≤ r.0.next_id) × IsKnown r.0.next_id r.1

  conflicting-below :
      (n : ℕ) (sql : Text) (es : Rows b) (e : Entry b.Vector)
      → All (λ x. x.id < n) es
      → conflicting b sql es ≡ some e
      → e.id < n
  unfolding conflicting
  conflicting-below n sql [] e h q = absurd (cc)
  conflicting-below n sql (x ∷ es) e h q = ground (arith, conflicting-below n sql es e)

  upsert-Leaves :
      (now : ℕ) (d : Draft) (vec : b.Vector) (t : Table b.Vector)
      → IsValid b t
      → let r = upsert b now d vec t in Leaves t (r.1, saved (some r.0))
  unfolding upsert
  upsert-Leaves now d vec t v =
      let (grown, known) = advanced in (upsert-IsValid b now d vec t v, grown, known)
    where
      advanced :
          (t.next_id ≤ (upsert b now d vec t).1.next_id)
          × ((upsert b now d vec t).0 < (upsert b now d vec t).1.next_id)
      advanced = elim (Option-cases (conflicting b d.mysql_sql t.rows)) [
        | inl e ↦ rw (e, upsert) (omega arith, omega arith)
        | inr (x, e) ↦
            let below = conflicting-below t.next_id d.mysql_sql t.rows x v.below_next e in
            rw (e, upsert) (omega arith, omega arith)
      ]

  module _ (u : Unicode) (c : Config b.Score) (fails : Faults) (now : ℕ) (t : Table b.Vector)
      (v : IsValid b t) where
    unchanged-Leaves : (p : Place b) → IsKnown t.next_id p → Leaves t (t, p)
    unchanged-Leaves p k = (v, omega arith, k)

    insert-Leaves :
        (d : Draft) (vec : b.Vector)
        → let r = insert_sample b fails now d vec t in Leaves t (r.1, saved r.0)
    unfolding insert_sample
    insert-Leaves d vec =
        if_both {A = Option ℕ × Table b.Vector} (λ r. Leaves t (r.1, saved r.0))
          (fails insert || not (storable d)) _ _ (λ e. unchanged-Leaves (saved none) tt)
          (λ e. upsert-Leaves now d vec t v)

    prepare-IsKnown : (d : Draft) → IsKnown t.next_id (prepare b u c fails d)
    unfolding prepare
    prepare-IsKnown d =
        if_both (IsKnown t.next_id) (not (is_enabled b c)) _ _ (λ e. tt)
          (λ e.
            if_both (IsKnown t.next_id) (bypass_filter d.source) _ _
              (λ e'. if_both (IsKnown t.next_id) (fails embedding) _ _ (λ x. tt) (λ x. tt))
              (λ e'. filtered (is_low_value u d.mysql_sql d.redshift_sql d.row_count)))
      where
        filtered :
            (o : Option LowValue)
            → IsKnown t.next_id (elim o as (λ x. Place b) [
              | some reason ↦ saved none
              | none ↦
                  if fails embedding then saved none else comparing d (b.embed_document d.mysql_sql)
            ])
        filtered (some reason) = tt
        filtered none = if_both (IsKnown t.next_id) (fails embedding) _ _ (λ x. tt) (λ x. tt)

    hits-below :
        (threshold : b.Score) (q : b.Vector) (es : Rows b)
        → All (λ e. Elem e t.rows) es
        → All (λ h. h.id < t.next_id) (select_hits b threshold q es)
    unfolding select_hits
    hits-below threshold q [] h = tt
    hits-below threshold q (e ∷ es) h =
        if_both (λ hs. All (λ (x : Hit b.Score). x.id < t.next_id) hs)
          (b.below (b.similarity e.embedding q) threshold) _ _
          (λ far. hits-below threshold q es h.1)
          (λ near. (
            All-Elem (λ x. x.id < t.next_id) e t.rows v.below_next h.0,
            hits-below threshold q es h.1,
          ))

    duplicate-IsKnown :
        (d : Draft) (vec : b.Vector) (es : Rows b)
        → All (λ e. Elem e t.rows) es
        → IsKnown t.next_id (next_save b u c d vec (duplicate_of b c vec es))
    unfolding duplicate_of next_save
    duplicate-IsKnown d vec [] h = tt
    duplicate-IsKnown d vec (e ∷ es) h =
        if_both (λ o. IsKnown t.next_id (next_save b u c d vec o))
          (b.at_least (b.similarity e.embedding vec) c.dedup_threshold) (some e.id) none
          (λ x. All-Elem (λ x. x.id < t.next_id) e t.rows v.below_next h.0) (λ x. tt)

    bump-Leaves :
        (i : ℕ)
        → i < t.next_id
        → Leaves t (record t { rows = bump_id b now i t.rows }, saved (some i))
    bump-Leaves i h =
        (SameKeys-IsValid b {t = t} _ v (bump_id-SameKeys b now i t.rows), omega arith, h)

    count-Leaves :
        (hits : List (Hit b.Score))
        → All (λ h. h.id < t.next_id) hits
        → let r = bump_hits b fails now hits t in Leaves t (r.1, found r.0)
    count-Leaves hits h =
        let (n, k) = counted hits h in (bump_hits-IsValid b fails now hits t v, n, k)
      where
        counted :
            (hs : List (Hit b.Score))
            → All (λ x. x.id < t.next_id) hs
            → (t.next_id ≤ (bump_hits b fails now hs t).1.next_id)
              × All
                  (λ x. x.id < (bump_hits b fails now hs t).1.next_id)
                  (bump_hits b fails now hs t).0
        counted [] k = unfold bump_hits in (omega arith, tt)
        counted (x ∷ hs) k =
            unfold bump_hits in
            if_both {A = List (Hit b.Score) × Table b.Vector}
              (λ r. (t.next_id ≤ r.1.next_id) × All (λ x. x.id < r.1.next_id) r.0)
              (fails update_hits) _ _ (λ e. (omega arith, tt)) (λ e. (omega arith, k))

    search-IsKnown :
        (rows : SelectsRows b) (sql : Text) (k : ℕ) (threshold : b.Score)
        → IsKnown t.next_id (search b u c fails sql k threshold t)
    unfolding search
    search-IsKnown rows sql k threshold =
        if_both (IsKnown t.next_id) (not (is_enabled b c)) _ _ (λ e. tt)
          (λ e.
            if_both (IsKnown t.next_id) (fails embedding || fails select_nearest) _ _ (λ e'. tt)
              (λ e'. hits_next _ (hits-below threshold q _ (rows.from_table q k t.rows))))
      where
        q : b.Vector
        q = b.embed_query sql

        hits_next :
            (hs : List (Hit b.Score))
            → All (λ h. h.id < t.next_id) hs
            → IsKnown t.next_id (next_search b u c hs)
        hits_next [] h = unfold next_search in tt
        hits_next (x ∷ hs) h = unfold next_search in h

    abbrev NotBack : Option (Bool × Table b.Vector) → Type 0
    NotBack none = Unit
    NotBack (some (gone, t')) = t.next_id ≤ t'.next_id

    delete-NotBack : (i : ℕ) → NotBack (delete_entry b c fails i t)
    unfolding delete_entry
    delete-NotBack i =
        if_both NotBack (not (is_enabled b c)) _ _ (λ e. omega arith)
          (λ e. if_both NotBack (fails delete) _ _ (λ e'. tt) (λ e'. omega arith))

    delete-Leaves :
        (o : Option (Bool × Table b.Vector)) (i : ℕ)
        → delete_entry b c fails i t ≡ o
        → Leaves t (end_delete b u c t o)
    unfolding end_delete
    delete-Leaves none i e = unchanged-Leaves (deleted none) tt
    delete-Leaves (some (gone, t')) i e =
        (delete_entry-IsValid b c fails i t e v, subst NotBack e (delete-NotBack i), tt)

    pub step-Leaves :
        (rows : SelectsRows b) (p : Place b)
        → IsKnown t.next_id p
        → Leaves t (step b u c fails now t p)
    unfolding step
    step-Leaves rows (saving d) k = unchanged-Leaves _ (prepare-IsKnown d)
    step-Leaves rows (comparing d vec) k = unchanged-Leaves _ (
        if_both (IsKnown t.next_id) (fails select_nearest) _ _ (λ e. tt)
          (λ e. duplicate-IsKnown d vec _ (rows.from_table vec 1 t.rows)))
    step-Leaves rows (bumping i) k =
        if_both {A = Table b.Vector × Place b} (Leaves t) (fails update_hits) _ _
          (λ e. unchanged-Leaves (saved none) tt) (λ e. bump-Leaves i k)
    step-Leaves rows (inserting d vec) k = insert-Leaves d vec
    step-Leaves rows (saved rid) k = unchanged-Leaves (saved rid) k
    step-Leaves rows (searching sql n threshold) k =
        unchanged-Leaves _ (search-IsKnown rows sql n threshold)
    step-Leaves rows (counting hits) k = count-Leaves hits k
    step-Leaves rows (found hits) k = unchanged-Leaves (found hits) k
    step-Leaves rows (deleting i) k = delete-Leaves _ i refl
    step-Leaves rows (deleted o) k = unchanged-Leaves (deleted o) k
