-- ===== src/Migrate/Loaded.antt =====
-- How the migration of a table ends, and what it loads.
use mathlib.Core.List.{append_assoc}
use mysql_redshift_agent.Prelude.{
  ◌≡◌, ◌≢◌, refl, ap, ◌∙◌, Bool, true, false, ◌&&◌, Option, none, some, List, [], ◌∷◌, ◌++◌, map,
  All, if◌then◌else◌,
}
use mysql_redshift_agent.Text.{Text, codes, join, is_space}
use mysql_redshift_agent.Text.Laws.{text_eq_refl}
use mysql_redshift_agent.Value.{Runtime, Value}
use mysql_redshift_agent.Csv.{excel, write_rows}
use mysql_redshift_agent.Csv.Reader.{read_csv}
use mysql_redshift_agent.Csv.RoundTrip.{read_csv-excel}
use mysql_redshift_agent.Migrate.{
  DictRows, field_of, all_keys_in, dict_rows, dump_table_to_csv, credentials, copy_sql, Loaded,
  World, Run, put_table, s3_uri, put_object, upload_to_s3, copy_uploaded, quoted_by, copy_rows,
  copy_into_redshift, migrate_table,
}

-- The tables other than `t` are as they were.
abbrev pub SameOthers : Text → World → World → Type 0
SameOthers t w w' = (t' : Text) → t ≢ t' → w'.tables t' ≡ w.tables t'

put_table_same : (t : Text) (rows : List Loaded) (w : World) → (put_table t rows w).tables t ≡ rows
unfolding put_table
put_table_same t rows w = rw (text_eq_refl t) refl

put_object_same :
    (b k content : Text) (w : World) → (put_object b k content w).s3 b k ≡ some content
unfolding put_object
put_object_same b k content w = rw (text_eq_refl b, text_eq_refl k) refl

-- The statement that the documentation of COPY asks for: the file at the URI as CSV in the region, with
-- the line of the header skipped and with NULL for fields that are empty or blank.
abbrev pub copy_statement : Text → Text → Text → Text → Text
copy_statement table uri creds region = join (codes "\n            ") (
    []
    ∷ (codes "COPY " ++ table)
    ∷ (codes "FROM " ++ quoted_by uri)
    ∷ creds
    ∷ codes "FORMAT AS CSV"
    ∷ codes "IGNOREHEADER 1"
    ∷ codes "EMPTYASNULL"
    ∷ codes "BLANKSASNULL"
    ∷ codes "TIMEFORMAT 'YYYY-MM-DD HH:MI:SS'"
    ∷ (codes "REGION " ++ (quoted_by region ++ codes "\n        "))
    ∷ [])

-- The URI of the file of a run.
abbrev pub object_uri : {r : Runtime} → Run r → Text
object_uri run = codes "s3://" ++ (run.bucket ++ (codes "/" ++ run.key))

copy_sql_lem :
    (table uri creds region : Text)
    → copy_sql table uri creds region ≡ copy_statement table uri creds region
unfolding copy_sql join
copy_sql_lem table uri creds region = simp append_assoc

module _ {r : Runtime} (str : Value r → Text) (run : Run r) (t : Text) (w : World) where
  -- The migration stopped before Redshift was changed, it left the table empty, or S3 holds the dump under
  -- the bucket and the key of the run and the table holds what COPY read of S3 at the URI of that file;
  -- only the last can return without an exception.
  pub data Ends : Bool × World → Type 0 where
    unchanged : (w' : World) → ((t' : Text) → w'.tables t' ≡ w.tables t') → Ends (false, w')
    emptied : (w' : World) → w'.tables t ≡ [] → SameOthers t w w' → Ends (false, w')
    copied :
        (done : Bool) (w' : World) (content creds : Text)
        → dump_table_to_csv r str run.selected ≡ some content
        → w'.s3 run.bucket run.key ≡ some content
        → credentials run.iam_role run.frozen ≡ some creds
        → run.loads (copy_statement t (object_uri run) creds run.region) w'.s3 ≡ some (w'.tables t)
        → SameOthers t w w'
        → Ends (done, w')

if-true : {A : Type 0} (b : Bool) (x y : A) → b ≡ true → (if b then x else y) ≡ x
if-true true x y e = refl
if-true false x y e = absurd (cc)

elim_some :
    {A B : Type 0} (o : Option A) (x : B) (f : A → B) (a : A)
    → o ≡ some a
    → (elim o [ none ↦ x | some b ↦ f b ]) ≡ f a
elim_some none x f a e = absurd (cc)
elim_some (some b) x f a e = ap (λ o. elim o [ none ↦ x | some b' ↦ f b' ]) e

-- The NULL of EMPTYASNULL and BLANKSASNULL: a field with nothing but white space.
unfoldable pub all_space : Text → Bool
all_space [] = true
all_space (c ∷ s) = is_space c && all_space s

unfoldable pub null_if_blank : Text → Option Text
unfolding all_space
null_if_blank s = if all_space s then none else some s

module _ {r : Runtime} (str : Value r → Text) (run : Run r) (cur : DictRows r) where
  -- The fields of the dump, row by row.
  abbrev pub dump_fields : List (List Text)
  dump_fields = map (λ row. map (field_of r str row) cur.columns) cur.rows

  dict_rows-All :
      (rows : List (List (Text × Value r)))
      → All (λ row. all_keys_in r str cur.columns row ≡ true) rows
      → dict_rows r str cur.columns rows
        ≡ some (map (λ row. map (field_of r str row) cur.columns) rows)
  unfolding dict_rows
  dict_rows-All [] h = refl
  dict_rows-All (row ∷ rows) h = rw (dict_rows, h.0, dict_rows-All rows h.1) refl

  -- The dump of rows whose keys are columns exists, and reads back as the names of the columns and the
  -- fields, with an empty field for None.
  pub dump_table_to_csv-read_csv :
      All (λ row. all_keys_in r str cur.columns row ≡ true) cur.rows
      → (content : Text) × (dump_table_to_csv r str (some cur) ≡ some content)
        × (read_csv b',' content ≡ some (cur.columns ∷ dump_fields))
  unfolding dump_table_to_csv
  dump_table_to_csv-read_csv h = (
    write_rows excel (cur.columns ∷ dump_fields),
    rw (dump_table_to_csv, dict_rows-All cur.rows h) refl,
    read_csv-excel (cur.columns ∷ dump_fields),
  )

  -- What COPY does with that statement, for a table and with credentials: it gives the rows of the file
  -- behind the first, with NULL for blank fields.
  pub record LoadsCsv (t creds : Text) : Type 0 where
    pub loaded :
        (s3 : Text → Text → Option Text) (content : Text) (header : List Text)
        (rows : List (List Text))
        → s3 run.bucket run.key ≡ some content
        → read_csv b',' content ≡ some (header ∷ rows)
        → run.loads (copy_statement t (object_uri run) creds run.region) s3
          ≡ some (map (map null_if_blank) rows)

  migrate_steps :
      (t : Text) (w : World) (content creds : Text) {rows : List Loaded}
      → dump_table_to_csv r str run.selected ≡ some content
      → credentials run.iam_role run.frozen ≡ some creds
      → run.uploads ≡ true
      → run.truncates ≡ true
      → run.commits ≡ true
      → run.counts ≡ true
      → run.loads
          (copy_sql t (s3_uri run) creds run.region)
          (put_object run.bucket run.key content w).s3
        ≡ some rows
      → migrate_table str run t w
        ≡ (true, put_table t rows (put_table t [] (put_object run.bucket run.key content w)))
  unfolding migrate_table upload_to_s3 copy_uploaded copy_into_redshift copy_rows put_table
  migrate_steps t w content creds {rows} dump c up truncates commits counts read =
      elim_some (dump_table_to_csv r str run.selected) _ _ content dump
      ∙ ap (copy_uploaded run t) (if-true run.uploads _ _ up)
      ∙ elim_some (credentials run.iam_role run.frozen) _ _ creds c
      ∙ if-true run.truncates _ _ truncates
      ∙ elim_some
          (run.loads (copy_sql t (s3_uri run) creds run.region)
            (put_object run.bucket run.key content w).s3)
          _ _ rows read
      ∙ if-true run.commits _ _ commits
      ∙ ap (λ b. (b, put_table t rows (put_table t [] (put_object run.bucket run.key content w))))
          counts

  -- Where COPY does what is documented and no call fails, the migration of a table returns, and Redshift
  -- holds the fields of the rows of MySQL, with NULL for those that are None or blank.
  pub migrate_table-loads :
      (t creds : Text) (w : World)
      → LoadsCsv t creds
      → run.selected ≡ some cur
      → All (λ row. all_keys_in r str cur.columns row ≡ true) cur.rows
      → credentials run.iam_role run.frozen ≡ some creds
      → run.uploads ≡ true
      → run.truncates ≡ true
      → run.commits ≡ true
      → run.counts ≡ true
      → ((migrate_table str run t w).0 ≡ true)
        × ((migrate_table str run t w).1.tables t ≡ map (map null_if_blank) dump_fields)
  migrate_table-loads t creds w csv selects keys c up truncates commits counts =
      let (content, dump, back) = dump_table_to_csv-read_csv keys in
      let e =
        migrate_steps t w content creds (ap (dump_table_to_csv r str) selects ∙ dump) c up truncates
          commits counts
          (ap (λ sql. run.loads sql (put_object run.bucket run.key content w).s3)
              (copy_sql_lem t (s3_uri run) creds run.region)
            ∙ csv.loaded _ content cur.columns dump_fields
                (put_object_same run.bucket run.key content w) back) in
      (ap (λ x. x.0) e, ap (λ x. x.1.tables t) e ∙ put_table_same t _ _)
