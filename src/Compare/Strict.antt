-- ===== src/Compare/Strict.antt =====
-- What an accepted strict comparison shows, and when the comparison returns at all.
use mathlib.Core.List.{Permᴰ}
use mysql_redshift_agent.Prelude.{
  ℕ, zero, suc, ◌≡◌, ◌≢◌, refl, sym, ◌∙◌, inl, inr, true, false, Option, none, some, List, [], ◌∷◌,
  map, length, arith, ==_iff, ◌==◌, Bool-cases, Option-cases,
}
use mysql_redshift_agent.Prelude.Sort.{sorted-perm, length-perm}
use mysql_redshift_agent.Text.{Text, Unicode, lower}
use mysql_redshift_agent.Text.Laws.{text_eq_iff}
use mysql_redshift_agent.Value.{Runtime, Row, texts_le}
use mysql_redshift_agent.Compare.{
  Scan, uneven, index_error, counted, Verdict, Reason, rejected, Difference, conclude, row_key,
  sort_rows, sort_error, same_names, compare_strict, compare,
}
use mysql_redshift_agent.Compare.Modes.{skipped, lenient, compare-counts_differ, compare-eq-strict}
use mysql_redshift_agent.Compare.Counting.{RowsEqual, scan-counted}

module _ (r : Runtime) where
  same_names_sound : (s t : List Text) → same_names r s t ≡ true → s ≡ t
  unfolding same_names
  same_names_sound [] [] h = refl
  same_names_sound [] (b ∷ t) h = cc
  same_names_sound (a ∷ s) [] h = cc
  same_names_sound (a ∷ s) (b ∷ t) h = ground (arith, text_eq_iff a b, same_names_sound s t)

  conclude-ok :
      (total : ℕ) (s : Scan r) (v : Verdict r)
      → conclude r total s ≡ some v
      → v.ok ≡ true
      → (first : Option (Difference r)) × (s ≡ counted zero first)
  unfolding conclude
  conclude-ok total (uneven i) v h k = absurd (ground arith)
  conclude-ok total index_error v h k = absurd (ground arith)
  conclude-ok total (counted zero first) v h k = (first, refl)
  conclude-ok total (counted (suc n) none) v h k = absurd (ground arith)
  conclude-ok total (counted (suc n) (some d)) v h k = absurd (ground arith)

  -- The rows of the two sides can be paired so that each pair is equal cell by cell.
  pub record Paired (my rs : List (Row r)) : Type 0 where
    pub left : List (Row r)
    pub right : List (Row r)
    pub left_perm : Permᴰ left my
    pub right_perm : Permᴰ right rs
    pub equal : RowsEqual r left right

module _ (r : Runtime) (u : Unicode) (my rs : List (Row r)) (cols_my cols_rs : List Text)
    (v : Verdict r) where
  compare_strict-ok :
      length my ≡ length rs
      → compare_strict r u my rs cols_my cols_rs ≡ some v
      → v.ok ≡ true
      → (map (lower u) cols_my ≡ map (lower u) cols_rs) × Paired r my rs
  unfolding compare_strict
  compare_strict-ok len h k = elim (Bool-cases (length cols_my == length cols_rs)) [
    | inr e ↦ absurd (differs (rw e at h))
    | inl e ↦ elim (Bool-cases (same_names r (map (lower u) cols_my) (map (lower u) cols_rs))) [
      | inr e' ↦ absurd (differs (rw (e, e') at h))
      | inl e' ↦ elim (Option-cases (sort_error r my rs)) [
        | inr (why, raised) ↦ absurd (differs (rw (e, e', raised) at h))
        | inl sorts ↦
            let (first, counted_) = conclude-ok r (length my) _ v (rw (e, e', sorts) at h) k in
            (
              same_names_sound r _ _ e',
              record {
                left = sort_rows r my;
                right = sort_rows r rs;
                left_perm = perm my;
                right_perm = perm rs;
                equal =
                    (scan-counted r cols_my 0 (sort_rows r my) (sort_rows r rs) 0 none counted_).1
                      refl (length-perm (perm my) ∙ len ∙ sym (length-perm (perm rs)));
              },
            )
      ]
    ]
  ]
    where
      differs : {why : Reason r} → ◌≡◌ {A = Option (Verdict r)} (some (rejected r why)) (some v) → ⊥
      differs p = ground arith

      perm : (rows : List (Row r)) → Permᴰ (sort_rows r rows) rows
      perm rows = unfold sort_rows in sorted-perm texts_le (row_key r) rows

  -- A strict comparison that accepts has found as many rows on both sides, the same column names up
  -- to case, and a pairing of the rows in which every two cells are equal.
  pub compare-ok-strict :
      (mode : Text)
      → mode ≢ skipped
      → mode ≢ lenient
      → compare r u my rs cols_my cols_rs mode ≡ some v
      → v.ok ≡ true
      → (length my ≡ length rs) × (map (lower u) cols_my ≡ map (lower u) cols_rs) × Paired r my rs
  unfolding compare
  compare-ok-strict mode ns nl h k = elim (Bool-cases (length my == length rs)) [
    | inl e ↦
        let len : length my ≡ length rs = (==_iff (length my) (length rs)).0 e in
        let (names, paired) =
          compare_strict-ok len
            (sym (compare-eq-strict r u my rs cols_my cols_rs mode ns nl len) ∙ h) k in
        (len, names, paired)
    | inr e ↦
        let ne : length my ≢ length rs = λ p. ground arith in
        absurd (not_ok (sym (compare-counts_differ r u my rs cols_my cols_rs mode ns ne) ∙ h) refl)
  ]
    where
      not_ok : {w : Verdict r} → ◌≡◌ {A = Option (Verdict r)} (some w) (some v) → w.ok ≡ false → ⊥
      not_ok p q = ground arith
