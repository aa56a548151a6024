-- ===== src/Knowledge/View.antt =====
-- The knowledge base as a map from statements to translations, and a save as an update of it.
use mysql_redshift_agent.Prelude.{
  ℕ, ◌≡◌, refl, sym, ◌∙◌, ◌⊎◌, inl, inr, true, false, Option, none, some, [], ◌∷◌, ◌++◌, arith,
  Bool-cases, Option-cases, if◌then◌else◌,
}
use mysql_redshift_agent.Text.{Text, Unicode, text_eq}
use mysql_redshift_agent.Text.Laws.{text_eq_iff}
use mysql_redshift_agent.Knowledge.Table.{
  Entry, Table, Backend, Draft, Rows, bump, bump_id, new_entry, overwrite, conflicting,
  overwrite_conflicting, upsert,
}
use mysql_redshift_agent.Knowledge.Store.{Config, Faults, bypass_filter, save_example}
use mysql_redshift_agent.Knowledge.Outcome.{save_example-Outcome}

module _ (b : Backend) where
  -- The translation of a statement, if it is known.
  unfoldable pub translation_of : Text → Rows b → Option Text
  translation_of sql [] = none
  translation_of sql (e ∷ es) =
      if text_eq (b.md5 e.mysql_sql) (b.md5 sql) then some e.redshift_sql else translation_of sql es

  -- The map with one statement updated.
  unfoldable pub updated : Text → Text → (Text → Option Text) → Text → Option Text
  updated sql translation view sql' =
      if text_eq (b.md5 sql) (b.md5 sql') then some translation else view sql'

  module _ (now : ℕ) (d : Draft) where
    view_snoc :
        (i : ℕ) (vec : b.Vector) (es : Rows b) (sql' : Text)
        → conflicting b d.mysql_sql es ≡ none
        → translation_of sql' (es ++ new_entry b now i d vec ∷ [])
          ≡ updated d.mysql_sql d.redshift_sql (λ s. translation_of s es) sql'
    unfolding translation_of updated conflicting new_entry
    view_snoc i vec [] sql' new = refl
    view_snoc i vec (e ∷ es) sql' new =
        elim (Bool-cases (text_eq (b.md5 e.mysql_sql) (b.md5 d.mysql_sql))) [
          | inl q ↦ absurd (cc (rw q at new))
          | inr q ↦ elim (Bool-cases (text_eq (b.md5 e.mysql_sql) (b.md5 sql'))) [
            | inl m ↦ rw (m, differs e sql' q m) refl
            | inr m ↦ rw m (view_snoc i vec es sql' (rw q at new))
          ]
        ]
      where
        differs :
            (e : Entry b.Vector) (sql' : Text)
            → text_eq (b.md5 e.mysql_sql) (b.md5 d.mysql_sql) ≡ false
            → text_eq (b.md5 e.mysql_sql) (b.md5 sql') ≡ true
            → text_eq (b.md5 d.mysql_sql) (b.md5 sql') ≡ false
        differs e sql' q m =
            let p : b.md5 e.mysql_sql ≡ b.md5 sql' =
              (text_eq_iff (b.md5 e.mysql_sql) (b.md5 sql')).0 m in
            elim (Bool-cases (text_eq (b.md5 d.mysql_sql) (b.md5 sql'))) [
              | inr n ↦ n
              | inl y ↦
                  let o : b.md5 d.mysql_sql ≡ b.md5 sql' =
                    (text_eq_iff (b.md5 d.mysql_sql) (b.md5 sql')).0 y in
                  absurd
                    (cc (q, (text_eq_iff (b.md5 e.mysql_sql) (b.md5 d.mysql_sql)).1 (p ∙ sym o)))
            ]

    view_overwrite_other :
        (vec : b.Vector) (es : Rows b) (sql' : Text)
        → text_eq (b.md5 d.mysql_sql) (b.md5 sql') ≡ false
        → translation_of sql' (overwrite_conflicting b now d vec es) ≡ translation_of sql' es
    unfolding translation_of overwrite_conflicting overwrite
    view_overwrite_other vec [] sql' other = refl
    view_overwrite_other vec (e ∷ es) sql' other =
        elim (Bool-cases (text_eq (b.md5 e.mysql_sql) (b.md5 d.mysql_sql))) [
          | inl q ↦
              let p : b.md5 e.mysql_sql ≡ b.md5 d.mysql_sql =
                (text_eq_iff (b.md5 e.mysql_sql) (b.md5 d.mysql_sql)).0 q in
              rw (q, p, other) (view_overwrite_other vec es sql' other)
          | inr q ↦ elim (Bool-cases (text_eq (b.md5 e.mysql_sql) (b.md5 sql'))) [
            | inl m ↦ rw (q, m) refl
            | inr m ↦ rw (q, m) (view_overwrite_other vec es sql' other)
          ]
        ]

    view_overwrite_same :
        (vec : b.Vector) (es : Rows b) (sql' : Text) (old : Entry b.Vector)
        → b.md5 d.mysql_sql ≡ b.md5 sql'
        → conflicting b d.mysql_sql es ≡ some old
        → translation_of sql' (overwrite_conflicting b now d vec es) ≡ some d.redshift_sql
    unfolding translation_of conflicting overwrite_conflicting overwrite
    view_overwrite_same vec [] sql' old p h = absurd (cc)
    view_overwrite_same vec (e ∷ es) sql' old p h =
        elim (Bool-cases (text_eq (b.md5 e.mysql_sql) (b.md5 d.mysql_sql))) [
          | inl q ↦ rw (q, ← p, q) refl
          | inr q ↦
              let rest = view_overwrite_same vec es sql' old p (rw q at h) in
              let m : text_eq (b.md5 e.mysql_sql) (b.md5 sql') ≡ false = rw (← p) q in
              rw (q, m) rest
        ]

    view_overwrite :
        (vec : b.Vector) (es : Rows b) (sql' : Text) (old : Entry b.Vector)
        → conflicting b d.mysql_sql es ≡ some old
        → translation_of sql' (overwrite_conflicting b now d vec es)
          ≡ updated d.mysql_sql d.redshift_sql (λ s. translation_of s es) sql'
    unfolding updated translation_of
    view_overwrite vec es sql' old h =
        elim (Bool-cases (text_eq (b.md5 d.mysql_sql) (b.md5 sql'))) [
          | inr other ↦ rw (updated, other) (view_overwrite_other vec es sql' other)
          | inl same ↦
              rw (updated, same)
                (view_overwrite_same vec es sql' old
                  ((text_eq_iff (b.md5 d.mysql_sql) (b.md5 sql')).0 same) h)
        ]

    view_upsert :
        (vec : b.Vector) (t : Table b.Vector) (sql' : Text)
        → translation_of sql' (upsert b now d vec t).1.rows
          ≡ updated d.mysql_sql d.redshift_sql (λ s. translation_of s t.rows) sql'
    unfolding upsert translation_of updated
    view_upsert vec t sql' = elim (Option-cases (conflicting b d.mysql_sql t.rows)) [
      | inl new ↦ rw (upsert, new) (view_snoc t.next_id vec t.rows sql' new)
      | inr (e, old) ↦ rw (upsert, old) (view_overwrite vec t.rows sql' e old)
    ]

  view_bump :
      (now i : ℕ) (es : Rows b) (sql : Text)
      → translation_of sql (bump_id b now i es) ≡ translation_of sql es
  unfolding translation_of bump_id bump
  view_bump now i [] sql = refl
  view_bump now i (e ∷ es) sql = ground (arith, view_bump now i es sql)

  module _ (u : Unicode) (c : Config b.Score) (fails : Faults) (now : ℕ) (d : Draft)
      (t : Table b.Vector) where
    -- Two tables with one map.
    abbrev pub SameView : Table b.Vector → Type 0
    SameView after = (sql : Text) → translation_of sql after.rows ≡ translation_of sql t.rows

    -- The map of a table is that of `t` with the sample's statement updated to its translation.
    abbrev pub UpdatedView : Table b.Vector → Type 0
    UpdatedView after =
        (sql : Text)
        → translation_of sql after.rows
          ≡ updated d.mysql_sql d.redshift_sql (λ s. translation_of s t.rows) sql

    -- A save leaves the map from statements to translations as it was, or it returns an id and updates
    -- the map at the statement of the sample and nowhere else; a save with source seed or import that
    -- returns an id does the latter. Statements with one md5 are one statement here.
    pub save_example-UpdatedView :
        (SameView (save_example b u c fails now d t).1
          × ((bypass_filter d.source ≡ true) → (save_example b u c fails now d t).0 ≡ none))
        ⊎ (UpdatedView (save_example b u c fails now d t).1
            × ¬ ((save_example b u c fails now d t).0 ≡ none))
    save_example-UpdatedView = elim (save_example-Outcome b now d t u c fails) [
      | inl e ↦ rw e (inl (λ sql. refl, λ by. refl))
      | inr (inl r) ↦
          rw r.result
            (inl (λ sql. view_bump now r.existing t.rows sql, λ by. absurd (cc (by, r.filtered))))
      | inr (inr r) ↦
          rw r.result (inr (λ sql. view_upsert now d (b.embed_document d.mysql_sql) t sql, λ e. cc))
    ]
