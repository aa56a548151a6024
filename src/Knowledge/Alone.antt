-- ===== src/Knowledge/Alone.antt =====
-- A request to the knowledge base whose statements no other request comes between.
use mysql_redshift_agent.Prelude.{ℕ, ◌≡◌, refl, Option, List, [], ◌∷◌, arith}
use mysql_redshift_agent.Text.{Text, Unicode}
use mysql_redshift_agent.Knowledge.Table.{Table, Backend, Draft}
use mysql_redshift_agent.Knowledge.Store.{
  Config, Faults, Hit, select_hits, bump_hits, dedup_or_insert, save_example, retrieve_similar,
}
use mysql_redshift_agent.Knowledge.Steps.{
  Place, saving, comparing, saved, searching, found, next_search, step, alone,
}

module _ (b : Backend) (u : Unicode) (c : Config b.Score) (fails : Faults) (now : ℕ)
    (t : Table b.Vector) where
  abbrev Ended : Option ℕ × Table b.Vector → Table b.Vector × Place b
  Ended r = (r.1, saved r.0)

  alone-comparing :
      (d : Draft) (vec : b.Vector)
      → alone b u c 2 fails now t (comparing d vec) ≡ Ended (dedup_or_insert b c fails now d vec t)
  unfolding alone dedup_or_insert step
  alone-comparing d vec = ground arith

  alone-saving :
      (d : Draft) → alone b u c 3 fails now t (saving d) ≡ Ended (save_example b u c fails now d t)
  unfolding alone save_example step
  alone-saving d = ground (arith, alone-comparing d (b.embed_document d.mysql_sql))

  next_search-alone :
      (hits : List (Hit b.Score))
      → alone b u c 1 fails now t (next_search b u c hits)
        ≡ ((bump_hits b fails now hits t).1, found (bump_hits b fails now hits t).0)
  unfolding alone step bump_hits
  next_search-alone [] = refl
  next_search-alone (h ∷ hs) = refl

  alone-searching :
      (sql : Text) (k : ℕ) (threshold : b.Score)
      → let r = retrieve_similar b c fails now sql k threshold t in
        alone b u c 2 fails now t (searching sql k threshold) ≡ (r.1, found r.0)
  unfolding alone retrieve_similar step
  alone-searching sql k threshold =
      let q = b.embed_query sql in
      let hits = select_hits b threshold q (b.nearest q k t.rows) in
      ground (arith, next_search-alone hits)

  -- A save and a retrieval whose statements no other request comes between have the result of
  -- `save_example` and of `retrieve_similar` and leave their table.
  pub alone_lem :
      (d : Draft) (sql : Text) (k : ℕ) (threshold : b.Score)
      → let s = save_example b u c fails now d t in
        let r = retrieve_similar b c fails now sql k threshold t in
        (alone b u c 3 fails now t (saving d) ≡ (s.1, saved s.0))
        × (alone b u c 2 fails now t (searching sql k threshold) ≡ (r.1, found r.0))
  alone_lem d sql k threshold = (alone-saving d, alone-searching sql k threshold)
