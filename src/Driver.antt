-- ===== src/Driver.antt =====
-- What the database drivers of agent/tools/executors.py and webui/app.py give for a statement, and the
-- part of both that reads it.
use mysql_redshift_agent.Prelude.{ℕ, Option, none, some, List, [], ◌∷◌}
use mysql_redshift_agent.Text.{Text}
use mysql_redshift_agent.Value.{Runtime, Row}

-- `description` holds the column names, if the statement has a result.
pub record Cursor (r : Runtime) : Type 0 where
  pub description : Option (List Text)
  pub rows : List (Row r)
  pub latency_ms : ℕ

-- A run of a statement: a cursor, or an exception with its type and text.
pub data Executed (r : Runtime) : Type 0 where
  fetched : Cursor r → Executed r
  raised : Text → Text → Executed r

-- `[… for d in cur.description] if cur.description else []`
unfoldable pub names_of : Option (List Text) → List Text
names_of none = []
names_of (some names) = names

-- The rows that the cursor can give: none if there are no columns, since nothing is fetched then.
unfoldable pub available : {r : Runtime} → List Text → List (Row r) → List (Row r)
available [] rows = []
available (c ∷ cols) rows = rows
