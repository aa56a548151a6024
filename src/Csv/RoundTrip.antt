-- ===== src/Csv/RoundTrip.antt =====
-- What is written reads back.
use mathlib.Core.List.{append_assoc}
use mysql_redshift_agent.Prelude.{
  ◌≡◌, ◌≢◌, ◌⊎◌, refl, ap, ◌∙◌, inl, inr, some, List, [], ◌∷◌, ◌++◌, map, All,
}
use mysql_redshift_agent.Text.{Text, join}
use mysql_redshift_agent.Csv.{
  Dialect, excel, in_quotes, written, write_fields, write_row, write_rows,
}
use mysql_redshift_agent.Csv.Reader.{
  Mode, fresh, behind_quote, finish_row, with_row, read, read_csv,
}
use mysql_redshift_agent.Csv.Fields.{
  Behind, read-in_quotes, read-written, Behind-delimiter, Behind-return, Behind-feed, IsDialect,
  IsReadable, excel-IsDialect, excel-IsReadable, empty, unquoted, closed,
}

module _ (d : Dialect) (ok : IsDialect d) where
  Behind-line_end :
      {m : Mode} {s : Text} (row : List Text) (rest : Text)
      → Behind m s
      → read d.delimiter m row s (d.line_end ++ rest)
        ≡ with_row (finish_row m row s) (read d.delimiter fresh [] [] rest)
  Behind-line_end row rest h = elim ok.ends [
    | inl e ↦ rw e (
        Behind-return d.delimiter row (10 ∷ rest) ok.returns h
        ∙ Behind-feed d.delimiter row rest ok.feeds h)
    | inr e ↦ rw e (Behind-feed d.delimiter row rest ok.feeds h)
  ]

  -- The end of a row with a field before the last one, or with a field that shows.
  finish_row-Behind :
      {m : Mode} {s : Text} (f : Text) (row : List Text)
      → Behind m s
      → finish_row m (f ∷ row) s ≡ (f ∷ row) ++ s ∷ []
  unfolding finish_row
  finish_row-Behind f row empty = refl
  finish_row-Behind f row (unquoted s) = refl
  finish_row-Behind f row (closed s) = refl

  -- The last field of a row that has others before it, and the fields that follow a first one.
  read-last :
      (g f : Text) (row : List Text) (rest : Text)
      → IsReadable d g
      → read d.delimiter fresh (f ∷ row) [] (written d g ++ (d.line_end ++ rest))
        ≡ with_row ((f ∷ row) ++ g ∷ []) (read d.delimiter fresh [] [] rest)
  read-last g f row rest hg =
      let (m, h, e) = read-written d ok (f ∷ row) g (d.line_end ++ rest) hg in
      e
      ∙ Behind-line_end (f ∷ row) rest h
      ∙ ap (λ x. with_row x (read d.delimiter fresh [] [] rest)) (finish_row-Behind f row h)

  read-delimited :
      (g : Text) (row : List Text) (rest : Text)
      → IsReadable d g
      → read d.delimiter fresh row [] (written d g ++ (d.delimiter ∷ rest))
        ≡ read d.delimiter fresh (row ++ g ∷ []) [] rest
  read-delimited g row rest hg =
      let (m, h, e) = read-written d ok row g (d.delimiter ∷ rest) hg in
      e ∙ Behind-delimiter d.delimiter row rest ok.separates h

  join_regroup :
      (g h : Text) (fields : List Text) (rest : Text)
      → join (d.delimiter ∷ []) (map (written d) (g ∷ h ∷ fields)) ++ rest
        ≡ written d g
          ++ (d.delimiter ∷ (join (d.delimiter ∷ []) (map (written d) (h ∷ fields)) ++ rest))
  unfolding join
  join_regroup g h fields rest = simp append_assoc

  read-join :
      (g : Text) (fields : List Text) (f : Text) (row : List Text) (rest : Text)
      → All (IsReadable d) (g ∷ fields)
      → read d.delimiter fresh
          (f ∷ row)
          []
          (join (d.delimiter ∷ []) (map (written d) (g ∷ fields)) ++ (d.line_end ++ rest))
        ≡ with_row ((f ∷ row) ++ g ∷ fields) (read d.delimiter fresh [] [] rest)
  unfolding join
  read-join g [] f row rest hs = read-last g f row rest hs.0
  read-join g (h ∷ fields) f row rest hs =
      ap (read d.delimiter fresh (f ∷ row) []) (join_regroup g h fields (d.line_end ++ rest))
      ∙ read-delimited g (f ∷ row) _ hs.0
      ∙ read-join h fields f (row ++ g ∷ []) rest hs.1
      ∙ ap (λ x. with_row (f ∷ x) (read d.delimiter fresh [] [] rest))
          (append_assoc row (g ∷ []) (h ∷ fields))

  -- A single field that is not empty, or that is quoted.
  finish_row-shown :
      {m : Mode} {s : Text}
      → Behind m s
      → (s ≢ []) ⊎ (m ≡ behind_quote)
      → finish_row m [] s ≡ s ∷ []
  unfolding finish_row
  finish_row-shown empty (inl ne) = absurd (ne refl)
  finish_row-shown empty (inr e) = absurd (cc)
  finish_row-shown (unquoted s) h = refl
  finish_row-shown (closed s) h = refl

  blank :
      (rest : Text)
      → with_row (finish_row fresh [] []) (read d.delimiter fresh [] [] rest)
        ≡ with_row [] (read d.delimiter fresh [] [] rest)
  unfolding finish_row
  blank rest = refl

  quotes_regroup :
      (rest : Text)
      → read d.delimiter fresh [] [] (write_row d ([] ∷ []) ++ rest)
        ≡ read d.delimiter fresh [] [] (in_quotes [] ++ (d.line_end ++ rest))
  unfolding write_row write_fields in_quotes
  quotes_regroup rest = refl

  -- A row reads back in front of any rest, also the empty row and a row of one empty field.
  read-write_row :
      (fields : List Text) (rest : Text)
      → All (IsReadable d) fields
      → read d.delimiter fresh [] [] (write_row d fields ++ rest)
        ≡ with_row fields (read d.delimiter fresh [] [] rest)
  unfolding write_row write_fields
  read-write_row [] rest hs = Behind-line_end [] rest empty ∙ blank rest
  read-write_row ([] ∷ []) rest hs =
      quotes_regroup rest
      ∙ read-in_quotes d.delimiter [] [] (d.line_end ++ rest)
      ∙ Behind-line_end [] rest (closed [])
      ∙ ap (λ x. with_row x (read d.delimiter fresh [] [] rest))
          (finish_row-shown (closed []) (inr refl))
  read-write_row ((c ∷ s) ∷ []) rest hs =
      let (m, h, e) = read-written d ok [] (c ∷ s) (d.line_end ++ rest) hs.0 in
      ap (read d.delimiter fresh [] []) (append_assoc (written d (c ∷ s)) d.line_end rest)
      ∙ e
      ∙ Behind-line_end [] rest h
      ∙ ap (λ x. with_row x (read d.delimiter fresh [] [] rest))
          (finish_row-shown h (inl (λ q. cc)))
  read-write_row (f ∷ g ∷ fields) rest hs =
      ap (read d.delimiter fresh [] []) (
        append_assoc (write_fields d (f ∷ g ∷ fields)) d.line_end rest
        ∙ join_regroup f g fields (d.line_end ++ rest))
      ∙ read-delimited f [] _ hs.0
      ∙ read-join g fields f [] rest hs.1

  pub read_csv-write_rows :
      (rows : List (List Text))
      → All (All (IsReadable d)) rows
      → read_csv d.delimiter (write_rows d rows) ≡ some rows
  unfolding read_csv write_rows read
  read_csv-write_rows [] hs = refl
  read_csv-write_rows (row ∷ rows) hs =
      read-write_row row (write_rows d rows) hs.0
      ∙ ap (with_row row) (read_csv-write_rows rows hs.1)

  all-IsReadable : ((s : Text) → IsReadable d s) → (fields : List Text) → All (IsReadable d) fields
  all-IsReadable h [] = tt
  all-IsReadable h (s ∷ fields) = (h s, all-IsReadable h fields)

  rows-IsReadable :
      ((s : Text) → IsReadable d s) → (rows : List (List Text)) → All (All (IsReadable d)) rows
  rows-IsReadable h [] = tt
  rows-IsReadable h (row ∷ rows) = (all-IsReadable h row, rows-IsReadable h rows)

-- A CSV file reads back whatever its fields hold.
pub read_csv-excel : (rows : List (List Text)) → read_csv b',' (write_rows excel rows) ≡ some rows
read_csv-excel rows =
    read_csv-write_rows excel excel-IsDialect rows
      (rows-IsReadable excel excel-IsDialect excel-IsReadable rows)
