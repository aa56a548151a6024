-- ===== src/Migrate/All.antt =====
-- What the loop of the migration over its tables leaves.
use mysql_redshift_agent.Prelude.{◌≡◌, some, Option, List}
use mysql_redshift_agent.Text.{Text}
use mysql_redshift_agent.Value.{Runtime, Value}
use mysql_redshift_agent.Migrate.{dump_table_to_csv, credentials, Loaded, Run}
use mysql_redshift_agent.Migrate.Loaded.{copy_statement, object_uri}

module _ {r : Runtime} (str : Value r → Text) where
  -- Some state of S3 had the dump of a table under the bucket and the key of its run, and `rows` are what
  -- COPY read of it at their URI.
  pub record Copied (run : Run r) (t : Text) (rows : List Loaded) : Type 0 where
    pub s3 : Text → Text → Option Text
    pub content : Text
    pub creds : Text
    pub dump : dump_table_to_csv r str run.selected ≡ some content
    pub uploaded : s3 run.bucket run.key ≡ some content
    pub granted : credentials run.iam_role run.frozen ≡ some creds
    pub loaded : run.loads (copy_statement t (object_uri run) creds run.region) s3 ≡ some rows
