-- ===== src/Rules/Matching.antt =====
-- Which documents `match_references` names, and in which order.
use mathlib.Core.List.{append_assoc, append-nil}
use mysql_redshift_agent.Prelude.{
  ◌≡◌, refl, ap, sym, ◌∙◌, ◌↔◌, ◌⊎◌, inl, inr, Bool, true, false, ◌&&◌, ◌||◌, not, List, [], ◌∷◌,
  ◌++◌, map, Elem, AllDistinct, filter_by, arith, Bool-cases,
}
use mysql_redshift_agent.Text.{Text, Unicode, text_eq}
use mysql_redshift_agent.Text.Laws.{text_eq_iff, text_eq_refl}
use mysql_redshift_agent.Regex.{Regex, found}
use mysql_redshift_agent.Regex.Occurs.{Occurs, found_iff}
use mathlib.Core.Option.{none}
use mysql_redshift_agent.Rules.{Rule, keyword_rules, contains, match_rules, match_references}

contains_sound : (t : Text) (ts : List Text) → contains t ts ≡ true → Elem t ts
unfolding contains
contains_sound t [] h = absurd (cc h)
contains_sound t (x ∷ ts) h = elim (Bool-cases (text_eq t x)) [
  | inl e ↦ inl ((text_eq_iff t x).0 e)
  | inr e ↦ inr (contains_sound t ts (ground arith))
]

contains_complete : (t : Text) (ts : List Text) → Elem t ts → contains t ts ≡ true
unfolding contains
contains_complete t [] h = elim h.lower [ ]
contains_complete t (x ∷ ts) (inl e) = ground (arith, (text_eq_iff t x).1 e)
contains_complete t (x ∷ ts) (inr h) = ground (arith, contains_complete t ts h)

pub contains_iff : (t : Text) (ts : List Text) → (contains t ts ≡ true) ↔ Elem t ts
contains_iff t ts = (contains_sound t ts, contains_complete t ts)

contains-snoc :
    (t f : Text) (ts : List Text) → contains t (ts ++ f ∷ []) ≡ (contains t ts || text_eq t f)
unfolding contains
contains-snoc t f [] = ground arith
contains-snoc t f (x ∷ ts) = ground (arith, contains-snoc t f ts)

names : List Rule → List Text
names = map (λ r. r.1)

-- None of the names is in `hit`, and none stands twice.
fresh : List Rule → List Text → Bool
fresh [] hit = true
fresh (r ∷ rules) hit = not (contains r.1 hit) && fresh rules (hit ++ r.1 ∷ [])

module _ (u : Unicode) (sql : Text) where
  occurring : List Rule → List Rule
  occurring = filter_by (λ r. found u r.0 sql)

  match_rules_lem :
      (rules : List Rule) (hit seen : List Text)
      → fresh rules seen ≡ true
      → ((f : Text) → contains f hit ≡ true → contains f seen ≡ true)
      → match_rules u rules sql hit ≡ hit ++ names (occurring rules)
  unfolding match_rules fresh names occurring
  match_rules_lem [] hit seen d h = sym (append-nil hit)
  match_rules_lem (r ∷ rules) hit seen d h = elim (Bool-cases (found u r.0 sql)) [
    | inl e ↦
        let is_new : contains r.1 hit ≡ false = ground (arith, h r.1) in
        rw (e, is_new)
          (match_rules_lem rules (hit ++ r.1 ∷ []) (seen ++ r.1 ∷ []) (ground arith)
              (λ f p. ground (arith, contains-snoc f r.1 hit, contains-snoc f r.1 seen, h f))
            ∙ append_assoc hit (r.1 ∷ []) (names (occurring rules)))
    | inr e ↦ rw e (
        match_rules_lem rules hit (seen ++ r.1 ∷ []) (ground arith)
          (λ f p. ground (arith, contains-snoc f r.1 seen, h f)))
  ]

fresh-keyword_rules : fresh keyword_rules [] ≡ true
unfolding fresh keyword_rules contains text_eq
fresh-keyword_rules = refl

module _ (u : Unicode) (sql : Text) where
  -- The documents named are those of the rules that occur, each once, in the order of the table.
  pub match_references-eq-filter :
      match_references u sql ≡ map (λ r. r.1) (filter_by (λ r. found u r.0 sql) keyword_rules)
  unfolding match_references names occurring
  match_references-eq-filter =
      match_rules_lem u sql keyword_rules [] [] fresh-keyword_rules (λ f h. h)

  Elem-occurring :
      (f : Text) (rules : List Rule)
      → Elem f (names (occurring u sql rules))
      → (p : Regex) × Elem (p, f) rules × Occurs u p none sql
  unfolding names occurring
  Elem-occurring f [] h = elim h.lower [ ]
  Elem-occurring f (r ∷ rules) h = elim (Bool-cases (found u r.0 sql)) [
    | inl e ↦ at_head e (rw e at h) (Elem-occurring f rules)
    | inr e ↦ further (Elem-occurring f rules (rw e at h))
  ]
    where
      further :
          (p : Regex) × Elem (p, f) rules × Occurs u p none sql
          → (p : Regex) × Elem (p, f) (r ∷ rules) × Occurs u p none sql
      further (p, m, o) = (p, inr m, o)

      at_head :
          found u r.0 sql ≡ true
          → (f ≡ r.1) ⊎ Elem f (names (occurring u sql rules))
          → (Elem f (names (occurring u sql rules))
              → (p : Regex) × Elem (p, f) rules × Occurs u p none sql)
          → (p : Regex) × Elem (p, f) (r ∷ rules) × Occurs u p none sql
      at_head e (inl q) ih = (r.0, inl (ap (λ x. (r.0, x)) q), (found_iff u r.0 sql).0 e)
      at_head e (inr m) ih = further (ih m)

  occurring-Elem :
      (f : Text) (p : Regex) (rules : List Rule)
      → Elem (p, f) rules
      → found u p sql ≡ true
      → Elem f (names (occurring u sql rules))
  unfolding names occurring
  occurring-Elem f p [] m o = elim m.lower [ ]
  occurring-Elem f p (r ∷ rules) (inl e) o =
      let here : found u r.0 sql ≡ true = ap (λ x. found u x.0 sql) (sym e) ∙ o in
      rw here (inl (ap (λ x. x.1) e))
  occurring-Elem f p (r ∷ rules) (inr m) o = elim (Bool-cases (found u r.0 sql)) [
    | inl e ↦ rw e (inr (occurring-Elem f p rules m o))
    | inr e ↦ rw e (occurring-Elem f p rules m o)
  ]

  -- A document is named exactly if a rule of the table with its name occurs in the statement.
  pub Elem-match_references_iff :
      (f : Text)
      → Elem f (match_references u sql)
        ↔ ((p : Regex) × Elem (p, f) keyword_rules × Occurs u p none sql)
  unfolding names occurring
  Elem-match_references_iff f = rw match_references-eq-filter (
    Elem-occurring f keyword_rules,
    λ (p, m, o). occurring-Elem f p keyword_rules m ((found_iff u p sql).1 o),
  )

  not_seen :
      (f : Text) (rules : List Rule) (seen : List Text)
      → fresh rules seen ≡ true
      → Elem f (names (occurring u sql rules))
      → contains f seen ≡ false
  unfolding fresh names occurring
  not_seen f [] seen d m = elim m.lower [ ]
  not_seen f (r ∷ rules) seen d m = elim (Bool-cases (found u r.0 sql)) [
    | inl e ↦ elim (rw e at m) [
      | inl q ↦ rw q (ground arith)
      | inr n ↦
          ground
            (arith, contains-snoc f r.1 seen, not_seen f rules (seen ++ r.1 ∷ []) (ground arith) n)
    ]
    | inr e ↦ ground (
      arith,
      contains-snoc f r.1 seen,
      not_seen f rules (seen ++ r.1 ∷ []) (ground arith) (rw e at m),
    )
  ]

  occurring-AllDistinct :
      (rules : List Rule) (seen : List Text)
      → fresh rules seen ≡ true
      → AllDistinct (names (occurring u sql rules))
  unfolding fresh names occurring
  occurring-AllDistinct [] seen d = tt
  occurring-AllDistinct (r ∷ rules) seen d = elim (Bool-cases (found u r.0 sql)) [
    | inl e ↦ rw e (
      λ m. ground (
        arith,
        not_seen r.1 rules (seen ++ r.1 ∷ []) (ground arith) m,
        contains-snoc r.1 r.1 seen,
        text_eq_refl r.1,
      ),
      occurring-AllDistinct rules (seen ++ r.1 ∷ []) (ground arith),
    )
    | inr e ↦ rw e (occurring-AllDistinct rules (seen ++ r.1 ∷ []) (ground arith))
  ]

  -- No document is named twice.
  pub match_references-AllDistinct : AllDistinct (match_references u sql)
  unfolding names occurring
  match_references-AllDistinct =
      rw match_references-eq-filter (occurring-AllDistinct keyword_rules [] fresh-keyword_rules)
