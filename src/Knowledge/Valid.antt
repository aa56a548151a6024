-- ===== src/Knowledge/Valid.antt =====
-- The keys of the table: ids below the sequence, no id and no md5 of a statement twice. Every operation
-- keeps this, whichever steps fail.
use mathlib.Core.Path.{subst}
use mysql_redshift_agent.Prelude.{
  ℕ, ◌+◌, ◌<◌, ◌≡◌, ◌≢◌, refl, ap, sym, ◌∙◌, inl, inr, Bool, ◌||◌, not, Option, none, some, List,
  [], ◌∷◌, ◌++◌, All, arith, Bool-cases, Option-cases, if_both,
}
use mysql_redshift_agent.Text.{Text, Unicode, text_eq}
use mysql_redshift_agent.Text.Laws.{text_eq_iff}
use mysql_redshift_agent.Knowledge.Table.{
  Entry, Table, Backend, Draft, Rows, bump, bump_id, bump_ids, new_entry, overwrite, conflicting,
  overwrite_conflicting, upsert, delete_id,
}
use mysql_redshift_agent.Knowledge.Outcome.{save_example-Outcome}
use mysql_redshift_agent.Knowledge.Store.{
  Config, Faults, is_enabled, bump_hits, retrieve_similar, save_example, delete_entry, Hit,
  embedding, select_nearest, update_hits, delete,
}

module _ (b : Backend) where
  -- Two rows that can stand in one table.
  abbrev pub Apart : Entry b.Vector → Entry b.Vector → Type 0
  Apart e f = (e.id ≢ f.id) × (b.md5 e.mysql_sql ≢ b.md5 f.mysql_sql)

  abbrev pub AllApart : Rows b → Type 0
  AllApart [] = Unit
  AllApart (e ∷ es) = All (Apart e) es × AllApart es

  pub record IsValid (t : Table b.Vector) : Type 0 where
    pub below_next : All (λ e. e.id < t.next_id) t.rows
    pub apart : AllApart t.rows

  -- The rows of two tables have the same ids and statements, in order.
  abbrev pub SameKeys : Rows b → Rows b → Type 0
  SameKeys [] [] = Unit
  SameKeys (e ∷ es) (f ∷ fs) = (e.id ≡ f.id) × (e.mysql_sql ≡ f.mysql_sql) × SameKeys es fs
  SameKeys [] (f ∷ fs) = ⊥
  SameKeys (e ∷ es) [] = ⊥

  pub SameKeys-refl : (es : Rows b) → SameKeys es es
  SameKeys-refl [] = tt
  SameKeys-refl (e ∷ es) = (refl, refl, SameKeys-refl es)

  pub bump_id-SameKeys : (now i : ℕ) (es : Rows b) → SameKeys (bump_id b now i es) es
  unfolding bump_id bump
  bump_id-SameKeys now i [] = tt
  bump_id-SameKeys now i (e ∷ es) = ground (arith, bump_id-SameKeys now i es)

  pub bump_ids-SameKeys :
      (now : ℕ) (ids : List ℕ) (es : Rows b) → SameKeys (bump_ids b now ids es) es
  unfolding bump_ids bump
  bump_ids-SameKeys now ids [] = tt
  bump_ids-SameKeys now ids (e ∷ es) = ground (arith, bump_ids-SameKeys now ids es)

  pub overwrite_conflicting-SameKeys :
      (now : ℕ) (d : Draft) (vec : b.Vector) (es : Rows b)
      → SameKeys (overwrite_conflicting b now d vec es) es
  unfolding overwrite_conflicting overwrite
  overwrite_conflicting-SameKeys now d vec [] = tt
  overwrite_conflicting-SameKeys now d vec (e ∷ es) =
      ground (arith, overwrite_conflicting-SameKeys now d vec es)

  SameKeys-below :
      (n : ℕ) (es fs : Rows b) → SameKeys es fs → All (λ e. e.id < n) fs → All (λ e. e.id < n) es
  SameKeys-below n [] [] k h = tt
  SameKeys-below n [] (f ∷ fs) k h = tt
  SameKeys-below n (e ∷ es) [] k h = absurd k
  SameKeys-below n (e ∷ es) (f ∷ fs) k h = (omega arith, SameKeys-below n es fs k.2 h.1)

  SameKeys-Apart :
      (e f : Entry b.Vector) (es fs : Rows b)
      → e.id ≡ f.id
      → e.mysql_sql ≡ f.mysql_sql
      → SameKeys es fs
      → All (Apart f) fs
      → All (Apart e) es
  SameKeys-Apart e f [] [] i s k h = tt
  SameKeys-Apart e f [] (y ∷ fs) i s k h = tt
  SameKeys-Apart e f (x ∷ es) [] i s k h = absurd k
  SameKeys-Apart e f (x ∷ es) (y ∷ fs) i s k h = (
    (λ p. h.0.0 (sym i ∙ p ∙ k.0), λ p. h.0.1 (ap b.md5 (sym s) ∙ p ∙ ap b.md5 k.1)),
    SameKeys-Apart e f es fs i s k.2 h.1,
  )

  SameKeys-AllApart : (es fs : Rows b) → SameKeys es fs → AllApart fs → AllApart es
  SameKeys-AllApart [] [] k h = tt
  SameKeys-AllApart [] (f ∷ fs) k h = tt
  SameKeys-AllApart (e ∷ es) [] k h = absurd k
  SameKeys-AllApart (e ∷ es) (f ∷ fs) k h =
      (SameKeys-Apart e f es fs k.0 k.1 k.2 h.0, SameKeys-AllApart es fs k.2 h.1)

  weaken_below : (n : ℕ) (es : Rows b) → All (λ e. e.id < n) es → All (λ e. e.id < n + 1) es
  weaken_below n [] h = tt
  weaken_below n (e ∷ es) h = (omega arith, weaken_below n es h.1)

  pub SameKeys-IsValid :
      {t : Table b.Vector} (es : Rows b)
      → IsValid t
      → SameKeys es t.rows
      → IsValid (record t { rows = es })
  SameKeys-IsValid {t} es v k = record {
    below_next = SameKeys-below t.next_id es t.rows k v.below_next;
    apart = SameKeys-AllApart es t.rows k v.apart;
  }

  -- A row at the end whose id and statement are new.
  snoc-Apart :
      (e f : Entry b.Vector) (es : Rows b)
      → All (Apart e) es
      → Apart e f
      → All (Apart e) (es ++ f ∷ [])
  snoc-Apart e f [] h a = (a, tt)
  snoc-Apart e f (x ∷ es) h a = (h.0, snoc-Apart e f es h.1 a)

  snoc-AllApart :
      (f : Entry b.Vector) (es : Rows b)
      → All (λ e. e.id < f.id) es
      → conflicting b f.mysql_sql es ≡ none
      → AllApart es
      → AllApart (es ++ f ∷ [])
  unfolding conflicting
  snoc-AllApart f [] below new h = (tt, tt)
  snoc-AllApart f (e ∷ es) below new h =
      elim (Bool-cases (text_eq (b.md5 e.mysql_sql) (b.md5 f.mysql_sql))) [
        | inl q ↦ absurd (cc (rw q at new))
        | inr q ↦ (
          snoc-Apart e f es h.0 (
            λ p. omega arith,
            λ p. ground (arith, text_eq_iff (b.md5 e.mysql_sql) (b.md5 f.mysql_sql)),
          ),
          snoc-AllApart f es below.1 (rw q at new) h.1,
        )
      ]

  snoc-below :
      (n : ℕ) (f : Entry b.Vector) (es : Rows b)
      → All (λ e. e.id < n) es
      → f.id < n
      → All (λ e. e.id < n) (es ++ f ∷ [])
  snoc-below n f [] h p = (p, tt)
  snoc-below n f (e ∷ es) h p = (h.0, snoc-below n f es h.1 p)

  pub upsert-IsValid :
      (now : ℕ) (d : Draft) (vec : b.Vector) (t : Table b.Vector)
      → IsValid t
      → IsValid (upsert b now d vec t).1
  unfolding upsert new_entry
  upsert-IsValid now d vec t v = elim (Option-cases (conflicting b d.mysql_sql t.rows)) [
    | inl new ↦
        let f = new_entry b now t.next_id d vec in
        rw (new, upsert)
          (record {
            below_next =
                snoc-below (t.next_id + 1) f t.rows (weaken_below t.next_id t.rows v.below_next)
                  (omega arith);
            apart = snoc-AllApart f t.rows v.below_next new v.apart;
          })
    | inr (e, old) ↦
        let w =
          SameKeys-IsValid {t = t} (overwrite_conflicting b now d vec t.rows) v
            (overwrite_conflicting-SameKeys now d vec t.rows) in
        rw (old, upsert)
          (record { below_next = weaken_below t.next_id _ w.below_next; apart = w.apart })
  ]

  -- A save keeps the keys of the table valid, on every path.
  pub save_example-IsValid :
      (u : Unicode) (c : Config b.Score) (fails : Faults) (now : ℕ) (d : Draft) (t : Table b.Vector)
      → IsValid t
      → IsValid (save_example b u c fails now d t).1
  save_example-IsValid u c fails now d t v = elim (save_example-Outcome b now d t u c fails) [
    | inl e ↦ rw e v
    | inr (inl r) ↦ rw r.result (
        SameKeys-IsValid {t = t} (bump_id b now r.existing t.rows) v
          (bump_id-SameKeys now r.existing t.rows))
    | inr (inr r) ↦ rw r.result (upsert-IsValid now d (b.embed_document d.mysql_sql) t v)
  ]

  abbrev ValidAfter : List (Hit b.Score) × Table b.Vector → Type 0
  ValidAfter r = IsValid r.1

  pub bump_hits-IsValid :
      (fails : Faults) (now : ℕ) (hits : List (Hit b.Score)) (t : Table b.Vector)
      → IsValid t
      → IsValid (bump_hits b fails now hits t).1
  unfolding bump_hits
  bump_hits-IsValid fails now [] t v = v
  bump_hits-IsValid fails now (h ∷ hs) t v =
      if_both ValidAfter (fails update_hits) _ _ (λ e. v)
        (λ e. SameKeys-IsValid {t = t} _ v (bump_ids-SameKeys now _ t.rows))

  pub retrieve_similar-IsValid :
      (c : Config b.Score) (fails : Faults) (now : ℕ) (sql : Text) (k : ℕ) (threshold : b.Score)
      (t : Table b.Vector)
      → IsValid t
      → IsValid (retrieve_similar b c fails now sql k threshold t).1
  unfolding retrieve_similar
  retrieve_similar-IsValid c fails now sql k threshold t v =
      if_both ValidAfter (not (is_enabled b c)) _ _ (λ e. v)
        (λ e.
          if_both ValidAfter (fails embedding || fails select_nearest) _ _ (λ e'. v)
            (λ e'. bump_hits-IsValid fails now _ t v))

  delete_id-below :
      (n i : ℕ) (es : Rows b) → All (λ e. e.id < n) es → All (λ e. e.id < n) (delete_id b i es).1
  unfolding delete_id
  delete_id-below n i [] h = tt
  delete_id-below n i (e ∷ es) h = ground (arith, delete_id-below n i es h.1)

  delete_id-Apart :
      (i : ℕ) (e : Entry b.Vector) (es : Rows b)
      → All (Apart e) es
      → All (Apart e) (delete_id b i es).1
  unfolding delete_id
  delete_id-Apart i e [] h = tt
  delete_id-Apart i e (x ∷ es) h = ground (arith, delete_id-Apart i e es h.1)

  delete_id-AllApart : (i : ℕ) (es : Rows b) → AllApart es → AllApart (delete_id b i es).1
  unfolding delete_id
  delete_id-AllApart i [] h = tt
  delete_id-AllApart i (e ∷ es) h =
      ground (arith, delete_id-Apart i e es h.0, delete_id-AllApart i es h.1)

  abbrev Kept : Option (Bool × Table b.Vector) → Type 0
  Kept none = Unit
  Kept (some (done, t')) = IsValid t'

  pub delete_entry-IsValid :
      (c : Config b.Score) (fails : Faults) (i : ℕ) (t : Table b.Vector) {done : Bool}
      {t' : Table b.Vector}
      → delete_entry b c fails i t ≡ some (done, t')
      → IsValid t
      → IsValid t'
  unfolding delete_entry
  delete_entry-IsValid c fails i t {done} {t'} h v =
      let w : IsValid (record t { rows = (delete_id b i t.rows).1 }) = record {
        below_next = delete_id-below t.next_id i t.rows v.below_next;
        apart = delete_id-AllApart i t.rows v.apart;
      } in
      subst Kept h (
        if_both Kept (not (is_enabled b c)) _ _ (λ e. v)
          (λ e. if_both Kept (fails delete) _ _ (λ e'. tt) (λ e'. w)))
