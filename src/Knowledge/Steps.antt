-- ===== src/Knowledge/Steps.antt =====
-- The requests of agent/tools/sql_knowledge.py as the statements that they send: each SELECT, UPDATE, INSERT and
-- DELETE stands in a transaction of its own, so that those of several requests may come in any order.
use mysql_redshift_agent.Prelude.{
  ℕ, zero, suc, Bool, ◌||◌, not, Option, none, some, List, [], ◌∷◌, if◌then◌else◌,
}
use mysql_redshift_agent.Text.{Text, Unicode}
use mysql_redshift_agent.Knowledge.Table.{Table, Backend, Draft, bump_id}
use mysql_redshift_agent.Knowledge.Filter.{is_low_value}
use mysql_redshift_agent.Knowledge.Store.{
  Config, Faults, Hit, is_enabled, embedding, select_nearest, update_hits, bypass_filter,
  select_hits, bump_hits, duplicate_of, insert_sample, delete_entry,
}

module _ (b : Backend) where
  -- Where a request stands: before its first statement, before a later one, or at its end.
  pub data Place : Type 0 where
    saving : Draft → Place
    comparing : Draft → b.Vector → Place
    bumping : ℕ → Place
    inserting : Draft → b.Vector → Place
    saved : Option ℕ → Place
    searching : Text → ℕ → b.Score → Place
    counting : List (Hit b.Score) → Place
    found : List (Hit b.Score) → Place
    deleting : ℕ → Place
    deleted : Option Bool → Place

module _ (b : Backend) (u : Unicode) (c : Config b.Score) where
  -- The tests of `save_example` and the embedding
  unfoldable pub prepare : Faults → Draft → Place b
  prepare fails d =
      if not (is_enabled b c)
      then saved none
      else if bypass_filter d.source
      then (if fails embedding then saved none else inserting d (b.embed_document d.mysql_sql))
      else elim (is_low_value u d.mysql_sql d.redshift_sql d.row_count) [
        | some reason ↦ saved none
        | none ↦ if fails embedding then saved none else comparing d (b.embed_document d.mysql_sql)
      ]

  -- Behind the SELECT of `save_example`
  unfoldable pub next_save : Draft → b.Vector → Option ℕ → Place b
  next_save d vec none = inserting d vec
  next_save d vec (some existing_id) = bumping existing_id

  -- Behind the SELECT of `retrieve_similar`
  unfoldable pub next_search : List (Hit b.Score) → Place b
  next_search [] = found []
  next_search (h ∷ hs) = counting (h ∷ hs)

  unfoldable pub search : Faults → Text → ℕ → b.Score → Table b.Vector → Place b
  unfolding next_search
  search fails sql top_k threshold t =
      if not (is_enabled b c)
      then found []
      else if fails embedding || fails select_nearest
      then found []
      else next_search
          (select_hits b threshold (b.embed_query sql) (b.nearest (b.embed_query sql) top_k t.rows))

  unfoldable pub end_delete :
      Table b.Vector → Option (Bool × Table b.Vector) → Table b.Vector × Place b
  end_delete t none = (t, deleted none)
  end_delete t (some (done, t')) = (t', deleted (some done))

  -- One statement of a request, with what fails in it and the time
  unfoldable pub step : Faults → ℕ → Table b.Vector → Place b → Table b.Vector × Place b
  unfolding prepare next_save search end_delete
  step fails now t (saving d) = (t, prepare fails d)
  step fails now t (comparing d vec) = (
    t,
    if fails select_nearest
        then saved none
        else next_save d vec (duplicate_of b c vec (b.nearest vec 1 t.rows)),
  )
  step fails now t (bumping i) =
      if fails update_hits
      then (t, saved none)
      else (record t { rows = bump_id b now i t.rows }, saved (some i))
  step fails now t (inserting d vec) =
      let (rid, t') = insert_sample b fails now d vec t in (t', saved rid)
  step fails now t (saved rid) = (t, saved rid)
  step fails now t (searching sql top_k threshold) = (t, search fails sql top_k threshold t)
  step fails now t (counting hits) =
      let (hits', t') = bump_hits b fails now hits t in (t', found hits')
  step fails now t (found hits) = (t, found hits)
  step fails now t (deleting i) = end_delete t (delete_entry b c fails i t)
  step fails now t (deleted done) = (t, deleted done)

  -- A request that no other one interrupts
  unfoldable pub alone : ℕ → Faults → ℕ → Table b.Vector → Place b → Table b.Vector × Place b
  unfolding step
  alone zero fails now t p = (t, p)
  alone (suc n) fails now t p = let (t', p') = step fails now t p in alone n fails now t' p'

  -- A statement of one of the requests
  pub data OneStep (t : Table b.Vector)
      : List (Place b) → Table b.Vector → List (Place b) → Type 0 where
    moves :
        (fails : Faults) (now : ℕ) (p : Place b) (ps : List (Place b))
        → OneStep t (p ∷ ps) (step fails now t p).0 ((step fails now t p).1 ∷ ps)
    skips :
        {t' : Table b.Vector} {ps ps' : List (Place b)} (p : Place b)
        → OneStep t ps t' ps'
        → OneStep t (p ∷ ps) t' (p ∷ ps')

  -- What the requests reach together; one that has not moved has not begun.
  pub data Together (t : Table b.Vector) (ps : List (Place b))
      : Table b.Vector → List (Place b) → Type 0 where
    begun : Together t ps t ps
    stepped :
        {t' t'' : Table b.Vector} {ps' ps'' : List (Place b)}
        → Together t ps t' ps'
        → OneStep t' ps' t'' ps''
        → Together t ps t'' ps''
