-- ===== src/Seed/Known.antt =====
-- What the seeding leaves in the knowledge base.
use mysql_redshift_agent.Prelude.{
  ℕ, ◌+◌, ◌≤◌, ◌≡◌, ◌≢◌, refl, sym, ◌∙◌, ◌⊎◌, inl, inr, true, false, Option, some, List, [], ◌∷◌,
  map, Elem, All, AllDistinct, arith, is_some,
}
use mysql_redshift_agent.Text.{Text, Unicode, text_eq}
use mysql_redshift_agent.Text.Laws.{text_eq_refl, text_eq-false}
use mysql_redshift_agent.Knowledge.Table.{Table, Backend, storable}
use mysql_redshift_agent.Knowledge.Store.{
  Config, Step, is_enabled, bypass_filter, seed, save_example,
}
use mysql_redshift_agent.Knowledge.View.{translation_of, updated, save_example-UpdatedView}
use mysql_redshift_agent.Knowledge.Saving.{save_example-Holds}
use mysql_redshift_agent.Service.Manage.{save_example_endpoint}
use mysql_redshift_agent.Delivery.{Delivery, answered, answer_lost, not_sent}
use mysql_redshift_agent.Seed.{Sample, payload, Post, Tally, seed_one, seed_from, seed_main}

bypass_seed : bypass_filter seed ≡ true
unfolding bypass_filter text_eq
bypass_seed = refl

payload_bypass : (s : Sample) → bypass_filter (payload s).source ≡ true
unfolding payload
payload_bypass s = bypass_seed

payload-storable : (s : Sample) → storable (payload s) ≡ true
unfolding payload storable
payload-storable s = refl

module _ (b : Backend) (u : Unicode) (c : Config b.Score) where
  -- The translation of a statement in the rows of a table.
  abbrev view : Table b.Vector → Text → Option Text
  view t sql = translation_of b sql t.rows

  -- One table is the other with the sample's statement updated.
  abbrev Seeds : Sample → Table b.Vector → Table b.Vector → Type 0
  Seeds s t t' = (sql : Text) → view t' sql ≡ updated b s.mysql s.redshift (view t) sql

  Seeds-known :
      (s : Sample) (t t' : Table b.Vector) → Seeds s t t' → view t' s.mysql ≡ some s.redshift
  unfolding updated
  Seeds-known s t t' h = h s.mysql ∙ rw (text_eq_refl (b.md5 s.mysql)) refl

  -- A save of a sample that returns an id updates its statement; no other save changes a translation.
  save_seed :
      (p : Post) (s : Sample) (t : Table b.Vector)
      → (Seeds s t (save_example b u c p.fails p.now (payload s) t).1)
        ⊎ (((sql : Text) → view (save_example b u c p.fails p.now (payload s) t).1 sql ≡ view t sql)
            × (is_some (save_example b u c p.fails p.now (payload s) t).0 ≡ false))
  unfolding payload
  save_seed p s t = elim (save_example-UpdatedView b u c p.fails p.now (payload s) t) [
    | inl (same, nothing) ↦ inr (same, rw (nothing bypass_seed) refl)
    | inr (updates, _) ↦ inl updates
  ]

  -- A statement with another md5 keeps its translation, however the post goes.
  seed_one-other :
      (delivery : Delivery) (p : Post) (s : Sample) (y : Tally) (t : Table b.Vector) (sql : Text)
      → b.md5 s.mysql ≢ b.md5 sql
      → view (seed_one b u c delivery p s y t).1 sql ≡ view t sql
  unfolding seed_one updated save_example_endpoint
  seed_one-other not_sent p s y t sql ne = refl
  seed_one-other answer_lost p s y t sql ne = elim (save_seed p s t) [
    | inl h ↦ h sql ∙ rw (text_eq-false (b.md5 s.mysql) (b.md5 sql) ne) refl
    | inr (h, _) ↦ h sql
  ]
  seed_one-other answered p s y t sql ne = elim (save_seed p s t) [
    | inl h ↦ h sql ∙ rw (text_eq-false (b.md5 s.mysql) (b.md5 sql) ne) refl
    | inr (h, _) ↦ h sql
  ]

  -- A post that is not counted as a failure has updated the statement.
  seed_one-Seeds :
      (delivery : Delivery) (p : Post) (s : Sample) (y : Tally) (t : Table b.Vector)
      → (seed_one b u c delivery p s y t).0.fail ≡ y.fail
      → Seeds s t (seed_one b u c delivery p s y t).1
  unfolding seed_one save_example_endpoint
  seed_one-Seeds not_sent p s y t h = absurd (omega arith)
  seed_one-Seeds answer_lost p s y t h = absurd (omega arith)
  seed_one-Seeds answered p s y t h = elim (save_seed p s t) [
    | inl updates ↦ updates
    | inr (_, nothing) ↦ absurd (omega (arith, rw nothing at h))
  ]

  seed_one-fail :
      (delivery : Delivery) (p : Post) (s : Sample) (y : Tally) (t : Table b.Vector)
      → y.fail ≤ (seed_one b u c delivery p s y t).0.fail
  unfolding seed_one
  seed_one-fail not_sent p s y t = omega arith
  seed_one-fail answer_lost p s y t = omega arith
  seed_one-fail answered p s y t = ground arith

  module _ (posts : ℕ → Post) where
    seed_from-fail :
        (i : ℕ) (samples : List Sample) (y : Tally) (t : Table b.Vector)
        → y.fail ≤ (seed_from b u c posts i samples y t).0.fail
    unfolding seed_from
    seed_from-fail i [] y t = omega arith
    seed_from-fail i (s ∷ samples) y t = omega (
      arith,
      seed_one-fail (posts i).delivery (posts i) s y t,
      seed_from-fail (i + 1) samples (seed_one b u c (posts i).delivery (posts i) s y t).0
          (seed_one b u c (posts i).delivery (posts i) s y t).1,
    )

    seed_from-other :
        (i : ℕ) (samples : List Sample) (y : Tally) (t : Table b.Vector) (sql : Text)
        → ¬ Elem (b.md5 sql) (map (λ s. b.md5 s.mysql) samples)
        → view (seed_from b u c posts i samples y t).1 sql ≡ view t sql
    unfolding seed_from
    seed_from-other i [] y t sql ne = refl
    seed_from-other i (s ∷ samples) y t sql ne =
        seed_from-other (i + 1) samples _ _ sql (λ m. ne (inr m))
        ∙ seed_one-other (posts i).delivery (posts i) s y t sql (λ e. ne (inl (sym e)))

    seed_from-known :
        (i : ℕ) (samples : List Sample) (y : Tally) (t : Table b.Vector)
        → AllDistinct (map (λ s. b.md5 s.mysql) samples)
        → (seed_from b u c posts i samples y t).0.fail ≡ y.fail
        → All (λ s. view (seed_from b u c posts i samples y t).1 s.mysql ≡ some s.redshift) samples
    unfolding seed_from
    seed_from-known i [] y t apart h = tt
    seed_from-known i (s ∷ samples) y t apart h =
        let step = seed_one b u c (posts i).delivery (posts i) s y t in
        let first : step.0.fail ≡ y.fail = omega (
          arith,
          seed_one-fail (posts i).delivery (posts i) s y t,
          seed_from-fail (i + 1) samples step.0 step.1,
        ) in
        (
          seed_from-other (i + 1) samples step.0 step.1 s.mysql apart.0
              ∙ Seeds-known s t step.1 (seed_one-Seeds (posts i).delivery (posts i) s y t first),
          seed_from-known (i + 1) samples step.0 step.1 apart.1 (omega arith),
        )

    -- Where no two samples share an md5, a seeding that ends with exit code 0 leaves every sample's
    -- statement with the sample's translation; however it ends, the statements with another md5 keep
    -- theirs.
    pub seed_main-known :
        (samples : List Sample) (t : Table b.Vector)
        → AllDistinct (map (λ s. b.md5 s.mysql) samples)
        → ((seed_main b u c posts samples t).0 ≡ 0
            → All
                (λ s.
                  translation_of b s.mysql (seed_main b u c posts samples t).1.rows
                  ≡ some s.redshift)
                samples)
          × ((sql : Text)
              → ¬ Elem (b.md5 sql) (map (λ s. b.md5 s.mysql) samples)
              → translation_of b sql (seed_main b u c posts samples t).1.rows
                ≡ translation_of b sql t.rows)
    unfolding seed_main
    seed_main-known samples t apart = (
      λ code. seed_from-known 1 samples _ t apart (ground arith),
      λ sql ne. seed_from-other 1 samples _ t sql ne,
    )

    -- An answered post of a configured knowledge base whose steps do not fail is counted as saved.
    seed_one-ok :
        is_enabled b c ≡ true
        → (p : Post) (s : Sample) (y : Tally) (t : Table b.Vector)
        → ((st : Step) → p.fails st ≡ false)
        → (seed_one b u c answered p s y t).0.fail ≡ y.fail
    unfolding seed_one save_example_endpoint
    seed_one-ok on p s y t up =
        let (id, saved, _) =
          save_example-Holds b u c p.fails p.now (payload s) t on up (payload_bypass s)
            (payload-storable s) in
        rw saved refl

    seed_from-ok :
        is_enabled b c ≡ true
        → ((i : ℕ) → (posts i).delivery ≡ answered)
        → ((i : ℕ) (st : Step) → (posts i).fails st ≡ false)
        → (i : ℕ) (samples : List Sample) (y : Tally) (t : Table b.Vector)
        → (seed_from b u c posts i samples y t).0.fail ≡ y.fail
    unfolding seed_from
    seed_from-ok on sent up i [] y t = refl
    seed_from-ok on sent up i (s ∷ samples) y t =
        seed_from-ok on sent up (i + 1) samples _ _
        ∙ rw (sent i) (seed_one-ok on (posts i) s y t (up i))

    -- On a configured knowledge base whose steps do not fail, and where every post is answered, the
    -- seeding ends with exit code 0.
    pub seed_main-ok :
        is_enabled b c ≡ true
        → ((i : ℕ) → (posts i).delivery ≡ answered)
        → ((i : ℕ) (st : Step) → (posts i).fails st ≡ false)
        → (samples : List Sample) (t : Table b.Vector) → (seed_main b u c posts samples t).0 ≡ 0
    unfolding seed_main
    seed_main-ok on sent up samples t =
        ground (arith, seed_from-ok on sent up 1 samples (record { ok = 0; fail = 0 }) t)
