-- ===== src/Knowledge/History.antt =====
-- The knowledge base over a history of requests, from the empty table of the schema.
use mysql_redshift_agent.Prelude.{ℕ, ◌≡◌, refl, Bool, Option, none, some, List, [], ◌∷◌}
use mysql_redshift_agent.Text.{Text, Unicode}
use mysql_redshift_agent.Knowledge.Table.{Table, Backend, Draft}
use mysql_redshift_agent.Knowledge.Store.{
  Config, Faults, retrieve_similar, save_example, delete_entry,
}
use mysql_redshift_agent.Knowledge.Valid.{
  IsValid, save_example-IsValid, retrieve_similar-IsValid, delete_entry-IsValid,
}

module _ (b : Backend) (u : Unicode) (c : Config b.Score) where
  -- One request that can change the table, at a time, with the steps that fail in it.
  pub data Request : Type 0 where
    retrieve : Text → ℕ → b.Score → Request
    save : Draft → Request
    delete : ℕ → Request

  -- The table after a delete, which stays as it was if the request raised.
  unfoldable pub table_after : Table b.Vector → Option (Bool × Table b.Vector) → Table b.Vector
  table_after t none = t
  table_after t (some (done, t')) = t'

  unfoldable pub serve_one : Request × ℕ × Faults → Table b.Vector → Table b.Vector
  unfolding table_after
  serve_one (retrieve sql k threshold, now, fails) t =
      (retrieve_similar b c fails now sql k threshold t).1
  serve_one (save d, now, fails) t = (save_example b u c fails now d t).1
  serve_one (delete i, now, fails) t = table_after t (delete_entry b c fails i t)

  unfoldable pub serve : List (Request × ℕ × Faults) → Table b.Vector → Table b.Vector
  unfolding serve_one
  serve [] t = t
  serve (q ∷ qs) t = serve qs (serve_one q t)

  abbrev pub empty_table : Table b.Vector
  empty_table = record { rows = []; next_id = 1 }

  table_after-IsValid :
      (fails : Faults) (i : ℕ) (t : Table b.Vector)
      → IsValid b t
      → (o : Option (Bool × Table b.Vector)) → delete_entry b c fails i t ≡ o
      → IsValid b (table_after t o)
  unfolding table_after
  table_after-IsValid fails i t v none e = v
  table_after-IsValid fails i t v (some (done, t')) e = delete_entry-IsValid b c fails i t e v

  serve_one-IsValid :
      (q : Request × ℕ × Faults) (t : Table b.Vector) → IsValid b t → IsValid b (serve_one q t)
  unfolding serve_one
  serve_one-IsValid (retrieve sql k threshold, now, fails) t v =
      retrieve_similar-IsValid b c fails now sql k threshold t v
  serve_one-IsValid (save d, now, fails) t v = save_example-IsValid b u c fails now d t v
  serve_one-IsValid (delete i, now, fails) t v = table_after-IsValid fails i t v _ refl

  serve-keeps_IsValid :
      (qs : List (Request × ℕ × Faults)) (t : Table b.Vector) → IsValid b t → IsValid b (serve qs t)
  unfolding serve
  serve-keeps_IsValid [] t v = v
  serve-keeps_IsValid (q ∷ qs) t v =
      serve-keeps_IsValid qs (serve_one q t) (serve_one-IsValid q t v)

  -- After any retrievals, saves and deletions, whichever of their steps fail, no id and no md5 of a
  -- statement stands twice in the table, and every id is below the sequence.
  pub serve-IsValid : (qs : List (Request × ℕ × Faults)) → IsValid b (serve qs empty_table)
  serve-IsValid qs = serve-keeps_IsValid qs empty_table (record { below_next = tt; apart = tt })
