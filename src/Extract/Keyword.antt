-- ===== src/Extract/Keyword.antt =====
-- What `extract_sql` returns: no white space around it, and a statement keyword in front if the reply
-- has one.
use mysql_redshift_agent.Prelude.{
  ℕ, ◌≡◌, ◌≢◌, refl, ap, sym, ◌∙◌, inl, inr, Bool, false, none, [], ◌∷◌, ◌++◌, map, All, All-Elem,
  Elem, arith, ◌==◌, Bool-cases, Option-cases, is_some,
}
use mysql_redshift_agent.Text.{
  Text, Unicode, codes, is_space, strip, rstrip, rstrip_by, rstrip_semicolons,
}
use mysql_redshift_agent.Text.Strip.{IsStripped, strip-IsStripped, strip-append, rstrip_by-append}
use mysql_redshift_agent.Regex.{Before, fold_case, search_from, rest_of, found}
use mysql_redshift_agent.Regex.Occurs.{Occurs, found_iff, Matches, of_seq, of_boundary}
use mysql_redshift_agent.Regex.Words.{
  search-FoundAt, IsWord, Matches-word, Matches-alternatives, word-not_space, word-not_semicolon,
}
use mysql_redshift_agent.Extract.{
  keywords, other_keywords, sql_start, is_untranslatable, strip_code_fence, take_fenced,
  from_keyword, clean_end, extract_sql,
}

-- The extracted text has no white space at its ends.
pub extract_sql-IsStripped : (u : Unicode) (text : Text) → IsStripped (extract_sql u text)
unfolding extract_sql
extract_sql-IsStripped u text = elim (Bool-cases (is_untranslatable u (strip_code_fence u text))) [
  | inl e ↦ rw e (strip-IsStripped _)
  | inr e ↦ rw e (strip-IsStripped _)
]

-- `s` begins with a keyword, up to case.
pub record BeginsWithKeyword (s : Text) : Type 0 where
  pub keyword : Text
  pub listed : Elem keyword keywords
  pub head : Text
  pub tail : Text
  pub splits : s ≡ head ++ tail
  pub up_to_case : map fold_case head ≡ map fold_case keyword

keywords-IsWord : All IsWord keywords
unfolding fold_case
keywords-IsWord = omega arith

-- A match of `sql_start` begins with a keyword.
sql_start-BeginsWithKeyword :
    (u : Unicode) {p p' : Before} {s s' : Text}
    → Matches u sql_start p s p' s'
    → BeginsWithKeyword s
unfolding sql_start
sql_start-BeginsWithKeyword u (of_seq (of_boundary _) (of_seq d (of_boundary _))) =
    let (w, m, e) = Matches-alternatives u (codes "WITH") other_keywords d in
    let (a, q, f) = Matches-word u w e in
    record { keyword = w; listed = m; head = a; tail = _; splits = q; up_to_case = f }

module _ {s : Text} (b : BeginsWithKeyword s) where
  open b use {keyword, listed, head, tail, splits, up_to_case}

  is_word : IsWord keyword
  is_word = All-Elem IsWord keyword keywords keywords-IsWord listed

  rstrip_by-BeginsWithKeyword :
      (p : ℕ → Bool) → All (λ c. p c ≡ false) head → BeginsWithKeyword (rstrip_by p s)
  rstrip_by-BeginsWithKeyword p h = record {
    keyword = keyword;
    listed = listed;
    head = head;
    tail = rstrip_by p tail;
    splits = ap (rstrip_by p) splits ∙ rstrip_by-append p head tail h;
    up_to_case = up_to_case;
  }

  rstrip-BeginsWithKeyword : BeginsWithKeyword (rstrip s)
  unfolding rstrip
  rstrip-BeginsWithKeyword =
      rstrip_by-BeginsWithKeyword is_space (word-not_space keyword head is_word up_to_case)

  rstrip_semicolons-BeginsWithKeyword : BeginsWithKeyword (rstrip_semicolons s)
  unfolding rstrip_semicolons
  rstrip_semicolons-BeginsWithKeyword =
      rstrip_by-BeginsWithKeyword (λ c. c == b';')
        (word-not_semicolon keyword head is_word up_to_case)

  no_empty_head : head ≢ []
  no_empty_head e = empty_word keyword is_word (sym up_to_case ∙ ap (map fold_case) e)
    where
      empty_word : (w : Text) → IsWord w → map fold_case w ≡ [] → ⊥
      empty_word [] h q = h
      empty_word (c ∷ w) h q = cc

  strip-BeginsWithKeyword : BeginsWithKeyword (strip s)
  strip-BeginsWithKeyword = record {
    keyword = keyword;
    listed = listed;
    head = head;
    tail = rstrip tail;
    splits =
        ap strip splits
        ∙ strip_head head no_empty_head (word-not_space keyword head is_word up_to_case);
    up_to_case = up_to_case;
  }
    where
      strip_head :
          (a : Text)
          → a ≢ []
          → All (λ c. is_space c ≡ false) a
          → strip (a ++ tail) ≡ a ++ rstrip tail
      strip_head [] ne h = absurd (ne refl)
      strip_head (c ∷ a) ne h = strip-append c a tail h

-- Neither stripping nor dropping semicolons touches a keyword in front.
clean_end-BeginsWithKeyword : {s : Text} → BeginsWithKeyword s → BeginsWithKeyword (clean_end s)
unfolding clean_end
clean_end-BeginsWithKeyword b =
    strip-BeginsWithKeyword (rstrip_semicolons-BeginsWithKeyword (rstrip-BeginsWithKeyword b))

from_keyword-BeginsWithKeyword :
    (u : Unicode) (t : Text) → Occurs u sql_start none t → BeginsWithKeyword (from_keyword u t)
unfolding from_keyword found
from_keyword-BeginsWithKeyword u t o =
    elim (Option-cases (search_from u sql_start none t rest_of)) [
      | inl miss ↦ absurd (cc ((found_iff u sql_start t).1 o, ap is_some miss))
      | inr (f, hit) ↦
          let at = search-FoundAt u sql_start rest_of none t f hit in
          rw (hit, from_keyword)
            (strip-BeginsWithKeyword (sql_start-BeginsWithKeyword u at.matched))
    ]

-- If the reply is not an UNTRANSLATABLE marker and a statement keyword occurs in it, once fences are
-- taken off, then the extracted text begins with one: the prose in front is dropped.
pub extract_sql-BeginsWithKeyword :
    (u : Unicode) (text : Text)
    → is_untranslatable u (strip_code_fence u text) ≡ false
    → Occurs u sql_start none (take_fenced u (strip_code_fence u text))
    → BeginsWithKeyword (extract_sql u text)
unfolding extract_sql
extract_sql-BeginsWithKeyword u text h o =
    rw h (clean_end-BeginsWithKeyword (from_keyword-BeginsWithKeyword u _ o))
