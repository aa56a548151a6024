-- ===== src/Compare/Modes.antt =====
-- The three modes of `compare`, up to the strict comparison.
use mysql_redshift_agent.Prelude.{
  ℕ, ◌+◌, ◌<◌, ◌≡◌, ◌≢◌, ◌↔◌, ◌⊎◌, refl, inl, inr, true, false, some, List, length, arith, ==_iff,
  ◌==◌, Bool-cases,
}
use mysql_redshift_agent.Text.{Text, Unicode, codes, text_eq}
use mysql_redshift_agent.Text.Laws.{text_eq_iff, text_eq_refl, text_eq-false}
use mysql_redshift_agent.Value.{Runtime, Row}
use mysql_redshift_agent.Compare.{
  Verdict, distance, row_counts_differ, row_counts_agree, accepted, compare_strict, compare,
}

abbrev pub skipped : Text
skipped = codes "skipped"

abbrev pub lenient : Text
lenient = codes "lenient"

pub lenient-ne-skipped : lenient ≢ skipped
unfolding text_eq
lenient-ne-skipped e = cc ((text_eq_iff lenient skipped).1 e)

module _ (r : Runtime) (u : Unicode) (my rs : List (Row r)) (cols_my cols_rs : List Text) where
  abbrev counts_differ : Verdict r
  counts_differ = record {
    ok = false;
    reason = row_counts_differ (length my) (length rs);
    diff_rows = some (distance r (length my) (length rs));
  }

  pub compare-counts_differ :
      (mode : Text)
      → mode ≢ skipped
      → length my ≢ length rs
      → compare r u my rs cols_my cols_rs mode ≡ some counts_differ
  unfolding compare
  compare-counts_differ mode ns ne =
      let e : (length my == length rs) ≡ false = ground arith in
      rw (text_eq-false mode skipped ns, e)

  pub compare-eq-strict :
      (mode : Text)
      → mode ≢ skipped
      → mode ≢ lenient
      → length my ≡ length rs
      → compare r u my rs cols_my cols_rs mode ≡ compare_strict r u my rs cols_my cols_rs
  unfolding compare
  compare-eq-strict mode ns nl len = rw (
    text_eq-false mode skipped ns,
    (==_iff (length my) (length rs)).1 len,
    text_eq-false mode lenient nl,
  )

  -- Unless it is skipped, a comparison of result sets with different numbers of rows is rejected,
  -- whatever the rows are, and `diff_rows` is how many more rows the larger side has.
  pub compare-unequal_counts :
      (mode : Text)
      → mode ≢ skipped
      → length my ≢ length rs
      → (v : Verdict r) × (d : ℕ) × (compare r u my rs cols_my cols_rs mode ≡ some v)
        × (v.ok ≡ false)
        × (v.diff_rows ≡ some d)
        × (0 < d)
        × ((length rs + d ≡ length my) ⊎ (length my + d ≡ length rs))
  compare-unequal_counts mode ns ne = (
    counts_differ,
    distance r (length my) (length rs),
    compare-counts_differ mode ns ne,
    refl,
    refl,
    omega arith,
    omega arith,
  )

  -- The lenient mode always answers, and accepts exactly if both sides have as many rows.
  pub compare-lenient_iff :
      (v : Verdict r) × (compare r u my rs cols_my cols_rs lenient ≡ some v)
      × ((v.ok ≡ true) ↔ (length my ≡ length rs))
  unfolding compare
  compare-lenient_iff = elim (Bool-cases (length my == length rs)) [
    | inl e ↦ (
      accepted r (row_counts_agree (length my)),
      rw (text_eq-false lenient skipped lenient-ne-skipped, e, text_eq_refl lenient),
      (λ p. (==_iff (length my) (length rs)).0 e, λ p. refl),
    )
    | inr e ↦ (
      counts_differ,
      compare-counts_differ lenient lenient-ne-skipped (λ p. ground arith),
      (λ p. cc, λ p. ground arith),
    )
  ]
