-- ===== src/Proxy/Routes.antt =====
-- Where the router of the proxy sends a statement.
use mathlib.Core.Path.{subst}
use mysql_redshift_agent.Prelude.{
  if◌then◌else◌, ◌≡◌, ◌↔◌, ◌⊎◌, refl, sym, ap, ◌∙◌, inl, inr, true, false, Option, none, some, List,
  [], ◌∷◌, Elem, Bool-cases,
}
use mysql_redshift_agent.Text.{Text, text_eq}
use mysql_redshift_agent.Text.Laws.{text_eq_iff, text_eq_refl}
use mysql_redshift_agent.Proxy.GoText.{Unicode, to_lower, trim_space, split_commas, is_empty}
use mysql_redshift_agent.Proxy.Router.{
  mysql, Parsed, tables, failed, has, add_to_set, listed, whitelist_from, new_router,
  collect_tables, extract_tables, first_unlisted, routed_by, route_tables, route_parsed, collected,
  route_listed, route,
}

has-true : (t : Text) (xs : List Text) → has t xs ≡ true → Elem t xs
unfolding has
has-true t [] h = absurd (cc)
has-true t (x ∷ xs) h = elim (Bool-cases (text_eq t x)) [
  | inl e ↦ inl ((text_eq_iff t x).0 e)
  | inr e ↦ inr (has-true t xs (rw e at h))
]

has-Elem : (t : Text) (xs : List Text) → Elem t xs → has t xs ≡ true
unfolding has
has-Elem t [] h = elim h.lower [ ]
has-Elem t (x ∷ xs) (inl e) = rw (e, text_eq_refl x) refl
has-Elem t (x ∷ xs) (inr h) = elim (Bool-cases (text_eq t x)) [
  | inl e ↦ rw e refl
  | inr e ↦ rw e (has-Elem t xs h)
]

add_to_set-Elem : (a t : Text) (xs : List Text) → Elem a (add_to_set t xs) ↔ ((a ≡ t) ⊎ Elem a xs)
unfolding add_to_set
add_to_set-Elem a t xs = elim (Bool-cases (has t xs)) [
  | inl e ↦ rw e (λ h. inr h, λ h. elim h [ inl q ↦ rw q (has-true t xs e) | inr m ↦ m ])
  | inr e ↦ rw e (λ h. h, λ h. h)
]

collect_tables-Elem :
    (a : Text) (seen ts : List Text) → Elem a (collect_tables seen ts) ↔ (Elem a seen ⊎ Elem a ts)
unfolding collect_tables
collect_tables-Elem a seen [] = (λ h. inl h, λ h. elim h [ inl m ↦ m | inr m ↦ elim m.lower [ ] ])
collect_tables-Elem a seen (t ∷ ts) =
    let ih = collect_tables-Elem a (add_to_set t seen) ts in
    let added = add_to_set-Elem a t seen in
    (
      λ h. elim (ih.0 h) [
        | inl m ↦ elim (added.0 m) [ inl q ↦ inr (inl q) | inr n ↦ inl n ]
        | inr m ↦ inr (inr m)
      ],
      λ h. ih.1 (elim h [
        | inl m ↦ inl (added.1 (inr m))
        | inr m ↦ elim m [ inl q ↦ inl (added.1 (inl q)) | inr n ↦ inr n ]
      ]),
    )

-- The statement refers to a table that is not on the list.
first_unlisted-some :
    (ws ts : List Text) (x : Text) → first_unlisted ws ts ≡ some x → Elem x ts × ¬ Elem x ws
unfolding first_unlisted
first_unlisted-some ws [] x h = absurd (cc)
first_unlisted-some ws (t ∷ ts) x h = elim (Bool-cases (has t ws)) [
  | inl e ↦ let (m, n) = first_unlisted-some ws ts x (rw e at h) in (inr m, n)
  | inr e ↦ let q : t ≡ x = cc (rw e at h) in (inl (sym q), λ m. cc (has-Elem x ws m, e, q))
]

first_unlisted-none :
    (ws ts : List Text) → first_unlisted ws ts ≡ none → (a : Text) → Elem a ts → Elem a ws
unfolding first_unlisted
first_unlisted-none ws [] h a m = elim m.lower [ ]
first_unlisted-none ws (t ∷ ts) h a m = elim (Bool-cases (has t ws)) [
  | inl e ↦ elim m [
    | inl q ↦ rw q (has-true t ws e)
    | inr n ↦ first_unlisted-none ws ts (rw e at h) a n
  ]
  | inr e ↦ absurd (cc (rw e at h))
]

module _ (u : Unicode) where
  -- One of the parts is the table's name, up to case and white space.
  abbrev pub Names : Text → List Text → Type 0
  Names t parts =
      (part : Text) × Elem part parts × (trim_space (to_lower u part) ≡ t) × (is_empty t ≡ false)

  add_listed :
      (a x : Text) (m : List Text)
      → Elem a (if is_empty x then m else add_to_set x m)
        ↔ (Elem a m ⊎ ((x ≡ a) × (is_empty a ≡ false)))
  add_listed a x m = elim (Bool-cases (is_empty x)) [
    | inl e ↦
        rw e (λ h. inl h, λ h. elim h [ inl n ↦ n | inr q ↦ absurd (cc (e, q.1, ap is_empty q.0)) ])
    | inr e ↦
        let added = add_to_set-Elem a x m in
        rw e (
          λ h. elim (added.0 h) [ inl q ↦ inr (sym q, rw q e) | inr n ↦ inl n ],
          λ h. added.1 (elim h [ inl n ↦ inr n | inr q ↦ inl (sym q.0) ]),
        )
  ]

  whitelist_from-Elem :
      (a : Text) (m ts : List Text) → Elem a (whitelist_from u m ts) ↔ (Elem a m ⊎ Names a ts)
  unfolding whitelist_from listed
  whitelist_from-Elem a m [] = (λ h. inl h, λ h. elim h [ inl n ↦ n | inr q ↦ elim q.1.lower [ ] ])
  whitelist_from-Elem a m (p ∷ ts) =
      let x : Text = trim_space (to_lower u p) in
      let m' : List Text = if is_empty x then m else add_to_set x m in
      let ih = whitelist_from-Elem a m' ts in
      let added = add_listed a x m in
      (
        λ h. elim (ih.0 h) [
          | inl n ↦ elim (added.0 n) [ inl n' ↦ inl n' | inr q ↦ inr (p, inl refl, q.0, q.1) ]
          | inr q ↦ inr (q.0, inr q.1, q.2, q.3)
        ],
        λ h. ih.1 (elim h [
          | inl n ↦ inl (added.1 (inl n))
          | inr q ↦ elim q.1 [
            | inl e ↦ inl (added.1 (inr (ap (λ y. trim_space (to_lower u y)) (sym e) ∙ q.2, q.3)))
            | inr n ↦ inr (q.0, n, q.2, q.3)
          ]
        ]),
      )

  -- The list names the table.
  abbrev pub Listed : Text → Text → Type 0
  Listed csv t = Names t (split_commas csv)

  new_router-Elem : (csv a : Text) → Elem a (new_router u csv).whitelist ↔ Listed csv a
  unfolding new_router
  new_router-Elem csv a =
      let h = whitelist_from-Elem a [] (split_commas csv) in
      (λ m. elim (h.0 m) [ inl n ↦ elim n.lower [ ] | inr q ↦ q ], λ q. h.1 (inr q))

  -- The list names a table, and the parsed statement refers to one that it does not name.
  pub record NeedsMysql (parse : Text → Parsed) (csv sql : Text) : Type 0 where
    pub named : Text
    pub names : Listed csv named
    pub referenced : List Text
    pub parsed : parse sql ≡ tables referenced
    pub table : Text
    pub refers : Elem table referenced
    pub unlisted : ¬ Listed csv table

  routed_by-mysql :
      (ws ts : List Text) (o : Option Text)
      → first_unlisted ws ts ≡ o
      → (routed_by ts o).destination ≡ mysql
      → (x : Text) × Elem x ts × ¬ Elem x ws
  unfolding routed_by
  routed_by-mysql ws ts none e h = absurd (cc)
  routed_by-mysql ws ts (some x) e h = let (m, n) = first_unlisted-some ws ts x e in (x, m, n)

  routed_by_unlisted :
      (ws ts : List Text) (x : Text) (o : Option Text)
      → first_unlisted ws ts ≡ o
      → Elem x ts
      → ¬ Elem x ws
      → (routed_by ts o).destination ≡ mysql
  unfolding routed_by
  routed_by_unlisted ws ts x none e m n = absurd (n (first_unlisted-none ws ts e x m))
  routed_by_unlisted ws ts x (some y) e m n = refl

  route_tables-mysql :
      (ws ts : List Text)
      → (route_tables ws ts).destination ≡ mysql
      → (x : Text) × Elem x ts × ¬ Elem x ws
  unfolding route_tables
  route_tables-mysql ws [] h = absurd (cc)
  route_tables-mysql ws (t ∷ ts) h = routed_by-mysql ws (t ∷ ts) _ refl h

  route_tables_unlisted :
      (ws ts : List Text) (x : Text)
      → Elem x ts
      → ¬ Elem x ws
      → (route_tables ws ts).destination ≡ mysql
  unfolding route_tables
  route_tables_unlisted ws [] x m n = elim m.lower [ ]
  route_tables_unlisted ws (t ∷ ts) x m n = routed_by_unlisted ws (t ∷ ts) x _ refl m n

  route_parsed-mysql :
      (ws : List Text) (p : Parsed)
      → (route_parsed ws (collected p)).destination ≡ mysql
      → (ts : List Text) × (p ≡ tables ts) × (x : Text) × Elem x ts × ¬ Elem x ws
  unfolding route_parsed collected
  route_parsed-mysql ws (failed e) h = absurd (cc)
  route_parsed-mysql ws (tables ts) h =
      let (x, m, n) = route_tables-mysql ws (collect_tables [] ts) h in
      (
        ts,
        refl,
        x,
        elim ((collect_tables-Elem x [] ts).0 m) [ inl k ↦ elim k.lower [ ] | inr k ↦ k ],
        n,
      )

  module _ (parse : Text → Parsed) (csv sql : Text) where
    listed-mysql :
        (ws : List Text)
        → (route_listed parse ws sql).destination ≡ mysql
        → (w : Text) × Elem w ws
          × (ts : List Text) × (parse sql ≡ tables ts)
          × (x : Text) × Elem x ts
          × ¬ Elem x ws
    unfolding route_listed extract_tables
    listed-mysql [] h = absurd (cc)
    listed-mysql (w ∷ ws) h =
        let (ts, p, x, m, n) = route_parsed-mysql (w ∷ ws) (parse sql) h in
        (w, inl refl, ts, p, x, m, n)

    listed_unlisted :
        (ws ts : List Text) (w x : Text)
        → Elem w ws
        → parse sql ≡ tables ts
        → Elem x ts
        → ¬ Elem x ws
        → (route_listed parse ws sql).destination ≡ mysql
    unfolding route_listed extract_tables
    listed_unlisted [] ts w x k p m n = elim k.lower [ ]
    listed_unlisted (v ∷ ws) ts w x k p m n =
        subst (λ q. (route_parsed (v ∷ ws) (collected q)).destination ≡ mysql) (sym p)
          (unfold route_parsed collected in
            route_tables_unlisted (v ∷ ws) (collect_tables [] ts) x
              ((collect_tables-Elem x [] ts).1 (inr m)) n)

    -- A statement is sent to MySQL exactly when the list names a table, the statement is parsed, and it
    -- refers to a table that the list does not name; in all other cases it is sent to Redshift. Names are
    -- compared with the parts of the list up to their case and the white space around them.
    pub route-mysql_iff :
        ((route parse (new_router u csv) sql).destination ≡ mysql) ↔ NeedsMysql parse csv sql
    unfolding route
    route-mysql_iff = (
      λ h.
          let (w, k, ts, p, x, m, n) = listed-mysql (new_router u csv).whitelist h in
          record {
            named = w;
            names = (new_router-Elem csv w).0 k;
            referenced = ts;
            parsed = p;
            table = x;
            refers = m;
            unlisted = λ q. n ((new_router-Elem csv x).1 q);
          },
      λ h.
          listed_unlisted (new_router u csv).whitelist h.referenced h.named h.table
            ((new_router-Elem csv h.named).1 h.names) h.parsed h.refers
            (λ q. h.unlisted ((new_router-Elem csv h.table).0 q)),
    )
