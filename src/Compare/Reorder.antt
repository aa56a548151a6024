-- ===== src/Compare/Reorder.antt =====
-- The strict comparison does not depend on the order in which the two servers return the rows.
use mathlib.Core.List.{Permᴰ}
use mathlib.Core.List.Permᴰ
use mathlib.Core.Path.{fun_ext}
use mysql_redshift_agent.Prelude.{
  ◌≡◌, ◌≢◌, refl, ap, sym, ◌∙◌, Bool, true, none, some, List, [], ◌∷◌, map, length, arith, ==_iff,
  All, length-map,
}
use mysql_redshift_agent.Prelude.Sort.{
  insert_sorted, sorted, Separates, All-perm, sorted_of_perm, length-perm, sorted-perm,
}
use mysql_redshift_agent.Text.{Text, Unicode, lower}
use mysql_redshift_agent.Text.Laws.{text_eq_refl}
use mysql_redshift_agent.Value.{
  Runtime, Normal, Row, normalize, normal_eq, value_eq, str_of, texts_le,
}
use mysql_redshift_agent.Value.Order.{texts_le-IsOrder}
use mysql_redshift_agent.Compare.{
  sort_error, conclude, accepted, strictly_equal, row_key, sort_rows, same_names, compare_strict,
  compare,
}
use mysql_redshift_agent.Compare.Modes.{skipped, lenient, compare-eq-strict}
use mysql_redshift_agent.Compare.Counting.{RowsEqual, CellsEqual, scan_equal}

module _ {A B K : Type 0} (le : K → K → Bool) (key : B → K) (f : A → B) where
  map-insert_sorted :
      (x : A) (xs : List A)
      → map f (insert_sorted le (λ a. key (f a)) x xs) ≡ insert_sorted le key (f x) (map f xs)
  unfolding insert_sorted
  map-insert_sorted x [] = refl
  map-insert_sorted x (y ∷ ys) = ground (arith, map-insert_sorted x ys)

  -- To sort by a key of an image is to sort the image.
  map-sorted : (xs : List A) → map f (sorted le (λ a. key (f a)) xs) ≡ sorted le key (map f xs)
  unfolding sorted
  map-sorted [] = refl
  map-sorted (x ∷ xs) =
      map-insert_sorted x (sorted le (λ a. key (f a)) xs)
      ∙ ap (insert_sorted le key (f x)) (map-sorted xs)

module _ (r : Runtime) where
  -- A row as the comparison sees it.
  abbrev pub normal_row : Row r → List (Normal r)
  normal_row = map (normalize r)

  abbrev pub normal_key : List (Normal r) → List Text
  normal_key = map (str_of r)

  -- The cell is equal to itself, which a NaN is not.
  abbrev pub IsReflexive : Normal r → Type 0
  IsReflexive v = normal_eq r v v ≡ true

  row_key-normal : (row : Row r) → row_key r row ≡ normal_key (normal_row row)
  unfolding row_key
  row_key-normal [] = refl
  row_key-normal (v ∷ row) = ap (λ t. str_of r (normalize r v) ∷ t) (row_key-normal row)

  same_names_refl : (s : List Text) → same_names r s s ≡ true
  unfolding same_names
  same_names_refl [] = refl
  same_names_refl (a ∷ s) = ground (arith, text_eq_refl a, same_names_refl s)

  CellsEqual-normal :
      (m n : Row r)
      → normal_row m ≡ normal_row n
      → All IsReflexive (normal_row m)
      → CellsEqual r m n
  unfolding value_eq
  CellsEqual-normal [] [] e h = tt
  CellsEqual-normal [] (b ∷ n) e h = absurd (cc)
  CellsEqual-normal (a ∷ m) [] e h = absurd (cc)
  CellsEqual-normal (a ∷ m) (b ∷ n) e h =
      let q : normalize r a ≡ normalize r b = cc in (rw (← q) h.0, CellsEqual-normal m n (cc) h.1)

  RowsEqual-normal :
      (ms ns : List (Row r))
      → map normal_row ms ≡ map normal_row ns
      → All (λ m. All IsReflexive m) (map normal_row ms)
      → RowsEqual r ms ns
  RowsEqual-normal [] [] e h = tt
  RowsEqual-normal [] (n ∷ ns) e h = absurd (cc)
  RowsEqual-normal (m ∷ ms) [] e h = absurd (cc)
  RowsEqual-normal (m ∷ ms) (n ∷ ns) e h =
      (CellsEqual-normal m n (cc) h.0, RowsEqual-normal ms ns (cc) h.1)

  sort_rows-normal :
      (rows : List (Row r))
      → map normal_row (sort_rows r rows) ≡ sorted texts_le normal_key (map normal_row rows)
  unfolding sort_rows
  sort_rows-normal rows =
      rw (fun_ext row_key-normal) (map-sorted texts_le normal_key normal_row rows)

module _ (r : Runtime) (u : Unicode) (my rs : List (Row r)) (cols_my cols_rs : List Text)
    (mode : Text) where
  -- If the columns have the same names up to case, the normalized rows of one side are a reordering
  -- of those of the other, the texts of the cells tell different rows apart, every cell is equal to
  -- itself, and `str` raises on no cell, then the strict comparison accepts.
  pub compare_reordered :
      mode ≢ skipped
      → mode ≢ lenient
      → map (lower u) cols_my ≡ map (lower u) cols_rs
      → Permᴰ (map (normal_row r) my) (map (normal_row r) rs)
      → Separates texts_le (normal_key r) (map (normal_row r) my)
      → All (λ m. All (IsReflexive r) m) (map (normal_row r) my)
      → sort_error r my rs ≡ none
      → compare r u my rs cols_my cols_rs mode ≡ some (accepted r (strictly_equal (length my)))
  unfolding compare_strict conclude
  compare_reordered ns nl names d apart reflexive sorts =
      compare-eq-strict r u my rs cols_my cols_rs mode ns nl
        (sym (length-map my (normal_row r)) ∙ length-perm d ∙ length-map rs (normal_row r))
      ∙ rw (
        (==_iff (length cols_my) (length cols_rs)).1
            (sym (length-map cols_my (lower u)) ∙ ap length names ∙ length-map cols_rs (lower u)),
        ap (same_names r (map (lower u) cols_my)) (sym names)
            ∙ same_names_refl r (map (lower u) cols_my),
        sorts,
        scan_equal r cols_my 0 (sort_rows r my) (sort_rows r rs) 0 none (
            RowsEqual-normal r (sort_rows r my) (sort_rows r rs)
              (sort_rows-normal r my
                ∙ sorted_of_perm (normal_key r) texts_le-IsOrder apart d
                ∙ sym (sort_rows-normal r rs))
              (rw (sort_rows-normal r my) (
                All-perm (λ m. All (IsReflexive r) m)
                  (Permᴰ.symm (sorted-perm texts_le (normal_key r) (map (normal_row r) my)))
                  reflexive))),
      )
