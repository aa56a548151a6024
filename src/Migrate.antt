-- ===== src/Migrate.antt =====
-- scripts/migrate_simple.py: a table is dumped to CSV, uploaded, and copied into Redshift. What the servers
-- do with their statements is a parameter; TRUNCATE commits at once, as the documentation of Redshift
-- says, and the rows of COPY are there from the commit on.
pub mod Loaded
pub mod All
pub mod Values
use mysql_redshift_agent.Prelude.{
  ℕ, Bool, true, false, ◌&&◌, Option, none, some, List, [], ◌∷◌, ◌++◌, map, if◌then◌else◌,
}
use mysql_redshift_agent.Text.{Text, codes, text_eq, is_space}
use mysql_redshift_agent.Value.{Runtime, Value}
use mysql_redshift_agent.Rules.{contains}
use mysql_redshift_agent.Csv.{excel, write_rows}

-- What the DictCursor of a `SELECT *` gives: `d[0] for d in cur.description`, and a dict for each row.
pub record DictRows (r : Runtime) : Type 0 where
  pub columns : List Text
  pub rows : List (List (Text × Value r))

module _ (r : Runtime) (str : Value r → Text) where
  -- `"" if v is None else v`, as the writer shows it
  unfoldable pub dumped : Value r → Text
  dumped Value.null = []
  dumped v = str v

  -- `rowdict.get(key, "")`
  unfoldable pub field_of : List (Text × Value r) → Text → Text
  field_of [] key = []
  field_of ((k, v) ∷ row) key = if text_eq k key then dumped v else field_of row key

  unfoldable pub all_keys_in : List Text → List (Text × Value r) → Bool
  all_keys_in columns [] = true
  all_keys_in columns ((k, v) ∷ row) = contains k columns && all_keys_in columns row

  -- The rows as DictWriter hands them to the writer; `none` is its ValueError on a key that is no column.
  unfoldable pub dict_rows : List Text → List (List (Text × Value r)) → Option (List (List Text))
  unfolding all_keys_in
  dict_rows columns [] = some []
  dict_rows columns (row ∷ rows) = elim (all_keys_in columns row) [
    | false ↦ none
    | true ↦ elim (dict_rows columns rows) [
      | none ↦ none
      | some written ↦ some (map (field_of row) columns ∷ written)
    ]
  ]

  -- `dump_table_to_csv`: the text of the file; `none` is an exception.
  unfoldable pub dump_table_to_csv : Option (DictRows r) → Option Text
  dump_table_to_csv none = none
  dump_table_to_csv (some cur) = elim (dict_rows cur.columns cur.rows) [
    | none ↦ none
    | some rows ↦ some (write_rows excel (cur.columns ∷ rows))
  ]

-- What `get_frozen_credentials` returns.
pub record Frozen : Type 0 where
  pub access_key : Text
  pub secret_key : Text
  pub token : Text

abbrev pub quoted_by : Text → Text
quoted_by s = codes "'" ++ (s ++ codes "'")

-- The clause with the credentials: IAM_ROLE first.
unfoldable pub credentials : Text → Option Frozen → Option Text
credentials [] none = none
credentials [] (some f) = elim f.token [
  | [] ↦ some (
      codes "ACCESS_KEY_ID "
      ++ (quoted_by f.access_key ++ (codes " SECRET_ACCESS_KEY " ++ quoted_by f.secret_key)))
  | c ∷ s ↦ some (
      codes "ACCESS_KEY_ID "
      ++ (quoted_by f.access_key
          ++ (codes " SECRET_ACCESS_KEY "
              ++ (quoted_by f.secret_key ++ (codes " SESSION_TOKEN " ++ quoted_by (c ∷ s))))))
]
credentials (c ∷ role) frozen = some (codes "IAM_ROLE " ++ quoted_by (c ∷ role))

unfoldable pub copy_sql : Text → Text → Text → Text → Text
copy_sql table uri creds region =
    codes "\n            COPY "
    ++ (table
        ++ (codes "\n            FROM "
            ++ (quoted_by uri
                ++ (codes "\n            "
                    ++ (creds
                        ++ (codes
                              "\n            FORMAT AS CSV\n            IGNOREHEADER 1\n            EMPTYASNULL\n            BLANKSASNULL\n            TIMEFORMAT 'YYYY-MM-DD HH:MI:SS'\n            REGION "
                            ++ (quoted_by region ++ codes "\n        ")))))))

-- A row of Redshift, by the texts of its fields.
abbrev pub Loaded : Type 0
Loaded = List (Option Text)

-- S3, as the files by bucket and key, and the committed rows of each table of Redshift.
pub record World : Type 0 where
  pub s3 : Text → Text → Option Text
  pub tables : Text → List Loaded

-- One table of a migration: what the SELECT gives, the environment variables and the key of the file, and
-- what each call of S3 and of Redshift does; `loads` is what the statement of a COPY reads from S3, `none`
-- an exception.
pub record Run (r : Runtime) : Type 0 where
  pub selected : Option (DictRows r)
  pub bucket : Text
  pub key : Text
  pub iam_role : Text
  pub frozen : Option Frozen
  pub region : Text
  pub uploads : Bool
  pub truncates : Bool
  pub loads : Text → (Text → Text → Option Text) → Option (List Loaded)
  pub commits : Bool
  pub counts : Bool

unfoldable pub put_table : Text → List Loaded → World → World
put_table t rows w = record w { tables = λ t'. if text_eq t t' then rows else w.tables t' }

abbrev pub s3_uri : {r : Runtime} → Run r → Text
s3_uri run = codes "s3://" ++ (run.bucket ++ (codes "/" ++ run.key))

unfoldable pub put_object : Text → Text → Text → World → World
put_object b k content w = record w {
  s3 = λ b' k'. if text_eq b b' && text_eq k k' then some content else w.s3 b' k';
}

-- `upload_to_s3`: the URI, and `none` for an exception
unfoldable pub upload_to_s3 : {r : Runtime} → Run r → Text → World → Option Text × World
upload_to_s3 run content w =
    if run.uploads then (some (s3_uri run), put_object run.bucket run.key content w) else (none, w)

-- `copy_into_redshift` from the COPY on: whether it returned, and the tables.
unfoldable pub copy_rows : {r : Runtime} → Run r → Text → Text → Text → World → Bool × World
copy_rows run t creds uri w = elim (run.loads (copy_sql t uri creds run.region) w.s3) [
  | none ↦ (false, w)
  | some rows ↦ if run.commits then (run.counts, put_table t rows w) else (false, w)
]

unfoldable pub copy_into_redshift : {r : Runtime} → Run r → Text → Text → World → Bool × World
unfolding copy_rows
copy_into_redshift run t uri w = elim (credentials run.iam_role run.frozen) [
  | none ↦ (false, w)
  | some creds ↦ if run.truncates then copy_rows run t creds uri (put_table t [] w) else (false, w)
]

-- The last call of the loop, behind the upload.
unfoldable pub copy_uploaded : {r : Runtime} → Run r → Text → Option Text × World → Bool × World
copy_uploaded run t (none, w) = (false, w)
copy_uploaded run t (some uri, w) = copy_into_redshift run t uri w

-- The body of the loop of `main`.
unfoldable pub migrate_table :
    {r : Runtime} → (Value r → Text) → Run r → Text → World → Bool × World
migrate_table {r} str run t w = elim (dump_table_to_csv r str run.selected) [
  | none ↦ (false, w)
  | some content ↦ copy_uploaded run t (upload_to_s3 run content w)
]

-- `main`: the loop over TABLES ends at the first exception.
unfoldable pub migrate :
    {r : Runtime} → (Value r → Text) → (Text → Run r) → List Text → World → Bool × World
migrate str runs [] w = (true, w)
migrate str runs (t ∷ ts) w =
    let (done, w') = migrate_table str (runs t) t w in
    let rest = migrate str runs ts w' in if done then rest else (false, w')
