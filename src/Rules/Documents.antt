-- ===== src/Rules/Documents.antt =====
-- What a lookup puts together from the documents, and what it does where none is matched.
use mysql_redshift_agent.Prelude.{◌≡◌, ap, inl, inr, List, [], ◌∷◌, ◌++◌, map, Elem}
use mysql_redshift_agent.Text.{Text, Unicode}
use mysql_redshift_agent.Text.Laws.{join-Elem}
use mysql_redshift_agent.Rules.{
  Directory, separator, section_of, lookup_sections, lookup_dialect_rule, match_references,
}

Elem-map : (g : Text → Text) (f : Text) (fs : List Text) → Elem f fs → Elem (g f) (map g fs)
Elem-map g f [] m = elim m.lower [ ]
Elem-map g f (x ∷ fs) (inl e) = inl (ap g e)
Elem-map g f (x ∷ fs) (inr m) = inr (Elem-map g f fs m)

lookup_sections-Elem :
    (dir : Directory) (f : Text) (hits : List Text)
    → Elem f hits
    → (before : Text) × (after : Text) × (lookup_sections dir hits
        ≡ before ++ (section_of dir f ++ after))
unfolding lookup_sections
lookup_sections-Elem dir f [] m = elim m.lower [ ]
lookup_sections-Elem dir f (h ∷ hits) m =
    join-Elem separator (section_of dir f) (map (section_of dir) (h ∷ hits))
      (Elem-map (section_of dir) f (h ∷ hits) m)

-- The text of a lookup holds the section of every document that `match_references` names.
pub lookup_dialect_rule-Elem :
    (u : Unicode) (dir : Directory) (sql f : Text)
    → Elem f (match_references u sql)
    → (before : Text) × (after : Text) × (lookup_dialect_rule u dir sql
        ≡ before ++ (section_of dir f ++ after))
unfolding lookup_dialect_rule
lookup_dialect_rule-Elem u dir sql f m = lookup_sections-Elem dir f (match_references u sql) m
