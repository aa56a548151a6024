-- ===== src/Service/Managed.antt =====
-- What the listing of the management endpoints returns.
use Prim.Native.Nat.{min}
use mysql_redshift_agent.Prelude.{
  ℕ, ◌-◌, ◌≡◌, refl, inl, inr, true, false, some, List, [], length, arith, Bool-cases,
}
use mysql_redshift_agent.Text.{Text, Unicode}
use mysql_redshift_agent.Knowledge.Table.{Entry, Table, Backend}
use mysql_redshift_agent.Knowledge.Store.{
  Config, Faults, is_enabled, select_entries, select_count, list_entries, count_entries,
}
use mysql_redshift_agent.Knowledge.Admin.{Orders, list_entries-length}
use mysql_redshift_agent.Service.Manage.{knowledge_list}

module _ (b : Backend) (u : Unicode) (c : Config b.Score) (fails : Faults) (search : Text)
    (t : Table b.Vector) where
  counted :
      is_enabled b c ≡ true
      → fails select_count ≡ false
      → (n : ℕ) × (count_entries b c fails search t ≡ some n)
  unfolding count_entries
  counted on counts = rw (on, counts) (_, refl)

  nothing_counted : is_enabled b c ≡ false → count_entries b c fails search t ≡ some 0
  unfolding count_entries
  nothing_counted off = rw off refl

  nothing_listed :
      (limit offset : ℕ)
      → is_enabled b c ≡ false
      → list_entries b c fails limit offset search t ≡ some []
  unfolding list_entries
  nothing_listed limit offset off = rw off refl

  -- Where ORDER BY keeps the rows and the two selections do not fail, the listing returns the total of the
  -- search and a page of `limit` items, or of the `total - offset` that are left if these are fewer, also
  -- where the knowledge base is not configured.
  pub knowledge_list-length :
      (limit offset : ℕ)
      → Orders b
      → fails select_count ≡ false
      → fails select_entries ≡ false
      → (total : ℕ) × (items : List (Entry b.Vector)) × (knowledge_list b u c fails limit offset
            search t
          ≡ some (total, items))
        × (length items ≡ min limit (total - offset))
  unfolding knowledge_list
  knowledge_list-length limit offset o counts selects = elim (Bool-cases (is_enabled b c)) [
    | inr off ↦ (
      0,
      [],
      rw (knowledge_list, nothing_counted off, nothing_listed limit offset off) refl,
      omega arith,
    )
    | inl on ↦
        let (n, total) = counted on counts in
        let (page, e, l) =
          list_entries-length b c fails search t n on selects o total limit offset in
        (n, page, rw (knowledge_list, total, e) refl, l)
  ]
