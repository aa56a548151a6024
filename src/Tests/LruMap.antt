-- ===== src/Tests/LruMap.antt =====
-- A bounded LRU map as a list with the latest key first, for the runs of the proxy.
use mysql_redshift_agent.Prelude.{
  ℕ, zero, suc, ◌≡◌, ◌≢◌, ◌⊎◌, refl, sym, ap, ◌∙◌, inl, inr, false, Option, none, some, List, [],
  ◌∷◌, take, Bool-cases, if◌then◌else◌,
}
use mysql_redshift_agent.Text.{Text, text_eq}
use mysql_redshift_agent.Text.Laws.{text_eq_iff, text_eq_refl}
use mysql_redshift_agent.Value.{ℤ, pos, negsuc}
use mysql_redshift_agent.Proxy.Cache.{Lru}

abbrev pub Entries : Type 0
Entries = List (Text × Text)

-- The size less one, and the entries
abbrev pub Store : Type 0
Store = ℕ × Entries

abbrev pub created : ℤ → Option Store
created (pos zero) = none
created (pos (suc n)) = some (n, [])
created (negsuc n) = none

unfoldable pub find : Text → Entries → Option Text
find k [] = none
find k ((j, v) ∷ es) = if text_eq k j then some v else find k es

unfoldable pub remove : Text → Entries → Entries
remove k [] = []
remove k ((j, v) ∷ es) = if text_eq j k then remove k es else (j, v) ∷ remove k es

unfoldable pub moved : Text → Option Text → Entries → Entries
unfolding remove
moved k none es = es
moved k (some v) es = (k, v) ∷ remove k es

find-remove : (k j : Text) (es : Entries) → k ≢ j → find k (remove j es) ≡ find k es
unfolding find remove
find-remove k j [] h = refl
find-remove k j ((i, v) ∷ es) h = elim (Bool-cases (text_eq i j)) [
  | inl e ↦
      let q = (text_eq_iff i j).0 e in
      let apart : text_eq k i ≡ false = elim (Bool-cases (text_eq k i)) [
        | inl x ↦ absurd (h ((text_eq_iff k i).0 x ∙ q))
        | inr x ↦ x
      ] in
      rw (e, apart) (find-remove k j es h)
  | inr e ↦ elim (Bool-cases (text_eq k i)) [
    | inl x ↦ rw (e, x) refl
    | inr x ↦ rw (e, x) (find-remove k j es h)
  ]
]

find-take :
    (k : Text) (n : ℕ) (es : Entries)
    → (find k (take n es) ≡ find k es) ⊎ (find k (take n es) ≡ none)
unfolding find
find-take k zero es = inr refl
find-take k (suc n) [] = inl refl
find-take k (suc n) ((i, v) ∷ es) = elim (Bool-cases (text_eq k i)) [
  | inl x ↦ rw x (inl refl)
  | inr x ↦ rw x (find-take k n es)
]

pub find-moved :
    (k j : Text) (es : Entries) (o : Option Text)
    → find j es ≡ o
    → find k (moved j o es) ≡ find k es
unfolding moved
find-moved k j es none e = refl
find-moved k j es (some v) e = elim (Bool-cases (text_eq k j)) [
  | inl x ↦
      let q = (text_eq_iff k j).0 x in unfold find in rw x (sym e ∙ ap (λ a. find a es) (sym q))
  | inr x ↦ unfold find in rw x (find-remove k j es (λ q. cc ((text_eq_iff k j).1 q, x)))
]

pub created_empty : (n : ℤ) (k : Text) (s : Store) → created n ≡ some s → find k s.1 ≡ none
unfolding find
created_empty (pos zero) k s e = absurd (cc)
created_empty (pos (suc n)) k s e =
    let q : ◌≡◌ {A = Store} (n, []) s = cc in ap (λ x. find k x.1) (sym q) ∙ refl
created_empty (negsuc n) k s e = absurd (cc)

pub find_added : (k v : Text) (s : Store) → find k (take (suc s.0) ((k, v) ∷ remove k s.1)) ≡ some v
unfolding find
find_added k v s = rw (text_eq_refl k) refl

pub find_other :
    (k j v : Text) (s : Store)
    → k ≢ j
    → (find k (take (suc s.0) ((j, v) ∷ remove j s.1)) ≡ find k s.1)
      ⊎ (find k (take (suc s.0) ((j, v) ∷ remove j s.1)) ≡ none)
find_other k j v s h =
    let apart : text_eq k j ≡ false = elim (Bool-cases (text_eq k j)) [
      | inl x ↦ absurd (h ((text_eq_iff k j).0 x))
      | inr x ↦ x
    ] in
    let same : find k (take (suc s.0) ((j, v) ∷ remove j s.1)) ≡ find k (take s.0 (remove j s.1)) =
      unfold find in rw apart refl in
    elim (find-take k s.0 (remove j s.1)) [
      | inl e ↦ inl (same ∙ e ∙ find-remove k j s.1 h)
      | inr e ↦ inr (same ∙ e)
    ]

abbrev pub lru : Lru
lru = record {
  Store = Store;
  new = created;
  get = λ k s. (find k s.1, (s.0, moved k (find k s.1) s.1));
  add = λ k v s. (s.0, take (suc s.0) ((k, v) ∷ remove k s.1));
  get_new = created_empty;
  get_added = find_added;
  get_got = λ k j s. find-moved k j s.1 (find j s.1) refl;
  get_other = find_other;
}
