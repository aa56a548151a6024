-- ===== src/Service/Manage.antt =====
-- The management endpoints of agent/app.py over the knowledge base.
use mysql_redshift_agent.Prelude.{ℕ, Bool, Option, none, some, List, is_some}
use mysql_redshift_agent.Text.{Text, Unicode}
use mysql_redshift_agent.Knowledge.Table.{Entry, Table, Backend, Draft}
use mysql_redshift_agent.Knowledge.Store.{
  Config, Faults, save_example, list_entries, count_entries, delete_entry,
}

-- The three endpoints over the knowledge base.
module _ (b : Backend) (u : Unicode) (c : Config b.Score) where
  -- {"ok": …, "id": …}
  unfoldable pub save_example_endpoint :
      Faults → ℕ → Draft → Table b.Vector → (Bool × Option ℕ) × Table b.Vector
  save_example_endpoint fails now d t =
      let (rid, t') = save_example b u c fails now d t in ((is_some rid, rid), t')

  -- {"total": …, "items": …}; `none` is an exception
  unfoldable pub knowledge_list :
      Faults → ℕ → ℕ → Text → Table b.Vector → Option (ℕ × List (Entry b.Vector))
  knowledge_list fails limit offset search t = elim (count_entries b c fails search t) [
    | none ↦ none
    | some total ↦ elim (list_entries b c fails limit offset search t) [
      | none ↦ none
      | some items ↦ some (total, items)
    ]
  ]

  -- {"ok": …}
  unfoldable pub knowledge_delete : Faults → ℕ → Table b.Vector → Option (Bool × Table b.Vector)
  knowledge_delete fails entry_id t = delete_entry b c fails entry_id t
