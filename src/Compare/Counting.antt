-- ===== src/Compare/Counting.antt =====
-- What the loop over the sorted rows counts.
use mysql_redshift_agent.Prelude.{
  ℕ, suc, ◌+◌, ◌≤◌, ◌≡◌, refl, ap, inl, inr, true, Option, none, some, List, [], ◌∷◌, length, arith,
  ==_iff, ◌==◌, Bool-cases, Option-cases,
}
use mysql_redshift_agent.Text.{Text}
use mysql_redshift_agent.Value.{Runtime, Row, value_eq}
use mysql_redshift_agent.Compare.{counted, Difference, first_mismatch, record_first, scan}

module _ (r : Runtime) where
  -- The cells of two rows are equal one by one.
  abbrev pub CellsEqual : Row r → Row r → Type 0
  CellsEqual [] [] = Unit
  CellsEqual (a ∷ s) (b ∷ t) = (value_eq r a b ≡ true) × CellsEqual s t
  CellsEqual [] (b ∷ t) = ⊥
  CellsEqual (a ∷ s) [] = ⊥

  abbrev pub RowsEqual : List (Row r) → List (Row r) → Type 0
  RowsEqual [] [] = Unit
  RowsEqual (m ∷ ms) (n ∷ ns) = CellsEqual m n × RowsEqual ms ns
  RowsEqual [] (n ∷ ns) = ⊥
  RowsEqual (m ∷ ms) [] = ⊥

  first_mismatch-none :
      (j : ℕ) (m n : Row r) → length m ≡ length n → first_mismatch r j m n ≡ none → CellsEqual m n
  unfolding first_mismatch
  first_mismatch-none j [] [] e h = tt
  first_mismatch-none j [] (b ∷ n) e h = omega arith
  first_mismatch-none j (a ∷ m) [] e h = omega arith
  first_mismatch-none j (a ∷ m) (b ∷ n) e h =
      ground (arith, first_mismatch-none (suc j) m n (omega arith))

  none-first_mismatch : (j : ℕ) (m n : Row r) → CellsEqual m n → first_mismatch r j m n ≡ none
  unfolding first_mismatch
  none-first_mismatch j [] n e = refl
  none-first_mismatch j (a ∷ m) [] e = refl
  none-first_mismatch j (a ∷ m) (b ∷ n) e = ground (arith, none-first_mismatch (suc j) m n e.1)

  CellsEqual-length : (m n : Row r) → CellsEqual m n → length m ≡ length n
  CellsEqual-length [] [] e = refl
  CellsEqual-length [] (b ∷ n) e = absurd e
  CellsEqual-length (a ∷ m) [] e = absurd e
  CellsEqual-length (a ∷ m) (b ∷ n) e = ap suc (CellsEqual-length m n e.1)

  -- The count never falls, and if it does not rise then all rows are equal.
  pub scan-counted :
      (cols : List Text) (i : ℕ) (ms ns : List (Row r)) (count : ℕ) (first : Option (Difference r))
      {n : ℕ} {last : Option (Difference r)}
      → scan r cols i ms ns count first ≡ counted n last
      → (count ≤ n) × (n ≡ count → length ms ≡ length ns → RowsEqual ms ns)
  unfolding scan
  scan-counted cols i [] [] count first h = (ground arith, λ p q. tt)
  scan-counted cols i [] (x ∷ ns) count first h = (ground arith, λ p q. absurd (omega arith))
  scan-counted cols i (m ∷ ms) [] count first h = (ground arith, λ p q. absurd (omega arith))
  scan-counted cols i (m ∷ ms) (x ∷ ns) count first h = elim (Bool-cases (length m == length x)) [
    | inr uneven_ ↦ absurd (cc (rw (uneven_, scan) at h))
    | inl even ↦ elim (Option-cases (first_mismatch r 0 m x)) [
      | inl equal ↦
          let (below, all) =
            scan-counted cols (suc i) ms ns count first (rw (even, equal, scan) at h) in
          (
            below,
            λ p q. (
              first_mismatch-none 0 m x ((==_iff (length m) (length x)).0 even) equal,
              all p (omega arith),
            ),
          )
      | inr (d, differ) ↦ elim (Option-cases (record_first r cols i d first)) [
        | inl raised ↦ absurd (cc (rw (even, differ, raised, scan) at h))
        | inr (f, kept) ↦
            let (below, all) =
              scan-counted cols (suc i) ms ns (count + 1) (some f)
                (rw (even, differ, kept, scan) at h) in
            (omega arith, λ p q. absurd (omega arith))
      ]
    ]
  ]

  -- Equal rows leave the count and the first difference as they are.
  pub scan_equal :
      (cols : List Text) (i : ℕ) (ms ns : List (Row r)) (count : ℕ) (first : Option (Difference r))
      → RowsEqual ms ns
      → scan r cols i ms ns count first ≡ counted count first
  unfolding scan
  scan_equal cols i [] ns count first h = refl
  scan_equal cols i (m ∷ ms) [] count first h = refl
  scan_equal cols i (m ∷ ms) (n ∷ ns) count first h =
      rw
        (
          (==_iff (length m) (length n)).1 (CellsEqual-length m n h.0),
          none-first_mismatch 0 m n h.0,
          scan,
        )
        (scan_equal cols (suc i) ms ns count first h.1)
