-- ===== src/Schema/Stale.antt =====
-- A failed fetch of agent/tools/get_table_schema.py stays in the cache.
use mysql_redshift_agent.Prelude.{
  ◌≡◌, ◌≢◌, refl, ◌∙◌, false, none, some, [], ◌∷◌, ◌++◌, arith, take,
}
use mysql_redshift_agent.Text.{Text, Unicode, codes, lower}
use mysql_redshift_agent.Text.Laws.{text_eq_refl}
use mysql_redshift_agent.Csv.{has_char}
use mysql_redshift_agent.Schema.{
  raised, Redshift, schema_text, fetch_schema, Cache, cached_value, cached_call, after_dot,
  table_of, get_table_schema, maxsize,
}

after_dot-qualified :
    (schema table : Text)
    → has_char b'.' schema ≡ false
    → after_dot (schema ++ b'.' ∷ table) ≡ some table
unfolding after_dot has_char
after_dot-qualified [] table h = refl
after_dot-qualified (c ∷ schema) table h = ground (arith, after_dot-qualified schema table)

table_of-qualified :
    (schema table : Text) → has_char b'.' schema ≡ false → table_of (schema ++ b'.' ∷ table) ≡ table
unfolding table_of
table_of-qualified schema table h = rw (table_of, after_dot-qualified schema table h) refl

fetch_schema-raised :
    (u : Unicode) (db : Redshift) (table e : Text)
    → db.host ≢ []
    → db.columns_of (lower u table) ≡ raised e
    → fetch_schema u db table
      ≡ codes "(failed to fetch schema for " ++ table ++ codes ": " ++ e ++ codes ")"
fetch_schema-raised u db table e configured down = configured_fetch db.host configured refl
  where
    configured_fetch :
        (host : Text)
        → host ≢ []
        → db.host ≡ host
        → fetch_schema u db table
          ≡ codes "(failed to fetch schema for " ++ table ++ codes ": " ++ e ++ codes ")"
    configured_fetch [] ne q = absurd (ne refl)
    configured_fetch (c ∷ cs) ne q = unfold fetch_schema schema_text in rw (q, down) refl

call_missed :
    (f : Text → Text) (k : Text) (cache : Cache)
    → cached_value k cache ≡ none
    → cached_call f k cache ≡ (f k, take maxsize ((k, f k) ∷ cache))
unfolding cached_call
call_missed f k cache missed = rw (cached_call, missed) refl

call_hit :
    (f : Text → Text) (k v : Text) (cache : Cache)
    → cached_value k cache ≡ some v
    → (cached_call f k cache).0 ≡ v
unfolding cached_call
call_hit f k v cache hit = rw (cached_call, hit) refl

newest : (k v : Text) (cache : Cache) → cached_value k (take maxsize ((k, v) ∷ cache)) ≡ some v
unfolding cached_value
newest k v cache = rw (text_eq_refl k) refl

missed_then_hit :
    (f g : Text → Text) (k : Text) (cache : Cache)
    → cached_value k cache ≡ none
    → (cached_call g k (cached_call f k cache).1).0 ≡ f k
missed_then_hit f g k cache missed =
    rw (call_missed f k cache missed) (call_hit g k (f k) _ (newest k (f k) cache))

-- Where the query for a table that is not in the cache raised, the next call for that table, under whatever
-- schema names without a dot the two calls have it, answers the failure again, with the message of the
-- first exception, whatever Redshift would answer by then.
pub get_table_schema-stale :
    (u : Unicode) (db later : Redshift) (schema schema' table e : Text) (cache : Cache)
    → has_char b'.' schema ≡ false
    → has_char b'.' schema' ≡ false
    → cached_value table cache ≡ none
    → db.host ≢ []
    → db.columns_of (lower u table) ≡ raised e
    → (get_table_schema u later
        (schema' ++ b'.' ∷ table)
        (get_table_schema u db (schema ++ b'.' ∷ table) cache).1).0
      ≡ codes "(failed to fetch schema for " ++ table ++ codes ": " ++ e ++ codes ")"
unfolding get_table_schema
get_table_schema-stale u db later schema schema' table e cache h h' missed configured down =
    rw (table_of-qualified schema table h, table_of-qualified schema' table h')
      (missed_then_hit (fetch_schema u db) (fetch_schema u later) table cache missed
        ∙ fetch_schema-raised u db table e configured down)
