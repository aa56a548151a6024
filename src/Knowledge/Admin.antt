-- ===== src/Knowledge/Admin.antt =====
-- The operations of the management pages: listing, counting and deleting.
use Prim.Native.Nat.{min}
use mathlib.Core.List.{Permᴰ}
use mathlib.Core.Option.{some-injective}
use mysql_redshift_agent.Prelude.{
  ℕ, ◌-◌, ◌<◌, ◌≡◌, ◌↔◌, refl, sym, ◌∙◌, inl, inr, Bool, true, false, not, some, [], ◌∷◌, map,
  length, take, drop, length-take, length-drop, Elem, filter_by, arith, ltb, ◌==◌, ==_iff,
  Bool-cases, if◌then◌else◌,
}
use mysql_redshift_agent.Prelude.Sort.{length-perm}
use mysql_redshift_agent.Text.{Text}
use mysql_redshift_agent.Knowledge.Table.{Table, Backend, Rows, delete_id, matches_search}
use mysql_redshift_agent.Knowledge.Store.{
  Config, Faults, is_empty, is_enabled, select_entries, select_count, delete, list_entries,
  count_entries, delete_entry,
}

module _ (b : Backend) where
  delete_id-rows :
      (i : ℕ) (es : Rows b) → (delete_id b i es).1 ≡ filter_by (λ e. not (e.id == i)) es
  unfolding delete_id
  delete_id-rows i [] = refl
  delete_id-rows i (e ∷ es) = ground (arith, delete_id-rows i es)

  delete_id-found : (i : ℕ) (es : Rows b) → 0 < (delete_id b i es).0 → Elem i (map (λ e. e.id) es)
  unfolding delete_id
  delete_id-found i [] p = absurd (omega arith)
  delete_id-found i (e ∷ es) p = elim (Bool-cases (e.id == i)) [
    | inl q ↦ inl (sym ((==_iff e.id i).0 q))
    | inr q ↦ inr (delete_id-found i es (rw q at p))
  ]

  found-delete_id : (i : ℕ) (es : Rows b) → Elem i (map (λ e. e.id) es) → 0 < (delete_id b i es).0
  unfolding delete_id
  found-delete_id i [] m = elim m.lower [ ]
  found-delete_id i (e ∷ es) (inl q) = ground arith
  found-delete_id i (e ∷ es) (inr m) = ground (arith, found-delete_id i es m)

  -- A deletion on a configured knowledge base that the database carries out reports success exactly
  -- if the id was there, and leaves exactly the rows with other ids, as they were.
  pub delete_entry_lem :
      (c : Config b.Score) (fails : Faults) (i : ℕ) (t : Table b.Vector)
      → is_enabled b c ≡ true
      → fails delete ≡ false
      → (done : Bool) × (delete_entry b c fails i t
          ≡ some (done, record t { rows = filter_by (λ e. not (e.id == i)) t.rows }))
        × ((done ≡ true) ↔ Elem i (map (λ e. e.id) t.rows))
  unfolding delete_entry
  delete_entry_lem c fails i t on up =
      rw (on, up, delete_id-rows)
        (
          ltb 0 (delete_id b i t.rows).0,
          refl,
          (
            λ p. delete_id-found i t.rows (ground arith),
            λ m. ground (arith, found-delete_id i t.rows m),
          ),
        )

  -- ORDER BY orders the rows and keeps them.
  pub record Orders : Type 0 where
    pub perm : (rows : Rows b) → Permᴰ (b.latest_first rows) rows

  module _ (c : Config b.Score) (fails : Faults) (search : Text) (t : Table b.Vector) (n : ℕ)
      (on : is_enabled b c ≡ true) (up : fails select_entries ≡ false) (o : Orders)
      (counted : count_entries b c fails search t ≡ some n) where
    selected : Rows b
    unfolding is_empty
    selected = if is_empty search then t.rows else filter_by (matches_search b search) t.rows

    length-selected : length (b.latest_first selected) ≡ n
    unfolding count_entries selected
    length-selected = length-perm (o.perm selected) ∙ elim (Bool-cases (fails select_count)) [
      | inl down ↦ absurd (cc (rw (on, down) at counted))
      | inr ok ↦ some-injective _ _ (rw (on, ok) at counted)
    ]

    -- On a configured knowledge base whose selection does not fail, where ORDER BY keeps the rows and
    -- `count_entries` has counted `n` entries for the same search, a page holds `limit` entries, or the
    -- `n - offset` that are left if these are fewer.
    pub list_entries-length :
        (limit offset : ℕ)
        → (page : Rows b) × (list_entries b c fails limit offset search t ≡ some page)
          × (length page ≡ min limit (n - offset))
    unfolding list_entries selected
    list_entries-length limit offset =
        rw (on, up)
          (
            take limit (drop offset (b.latest_first selected)),
            refl,
            omega (
              arith,
              length-take limit (drop offset (b.latest_first selected)),
              length-drop offset (b.latest_first selected),
              length-selected,
            ),
          )
