-- ===== src/Proxy/Literals.antt =====
-- The key of the cache of translations does not tell apart two statements that differ in a literal.
use mysql_redshift_agent.Prelude.{
  ℕ, ◌≡◌, ◌≢◌, refl, sym, ap, ◌∙◌, Bool, true, false, some, [], ◌∷◌, ◌++◌, All, length, drop, ◌==◌,
  arith,
}
use mysql_redshift_agent.Text.{Text, rstrip_by}
use mysql_redshift_agent.Text.Strip.{EndsClean, rstrip_by_clean}
use mysql_redshift_agent.Proxy.GoText.{
  Unicode, is_space, trim_left, trim_space, trim_semicolons, lower_char, to_lower,
}
use mysql_redshift_agent.Proxy.Normalize.{
  quote, is_digit, run_length, is_word, replace_at, replace_from, string_literal, fraction,
  number_end, number_rest, number, blanks, mark, replace_all, normalize, key,
}
use mysql_redshift_agent.Proxy.Numbers.{replace_space}

abbrev pub IsDigits : Text → Type 0
IsDigits = All (λ c. is_digit c ≡ true)

run_length_digits : (d : Text) → IsDigits d → run_length is_digit d ≡ length d
unfolding run_length
run_length_digits [] h = refl
run_length_digits (c ∷ d) h = rw (h.0, run_length_digits d h.1)

drop_all : (d : Text) → drop (length d) d ≡ []
drop_all [] = refl
drop_all (c ∷ d) = drop_all d

skip_all : (d : Text) (before : Bool) → replace_from number mark (length d) before d ≡ []
unfolding replace_from
skip_all [] before = refl
skip_all (c ∷ d) before = skip_all d _

number_rest_digits : (d : Text) → IsDigits d → number_rest d ≡ some (length d)
unfolding number_rest
number_rest_digits d h = rw (run_length_digits d h, drop_all d) (unfold fraction number_end in refl)

number_digits : (c : ℕ) (d : Text) → IsDigits (c ∷ d) → number false (c ∷ d) ≡ some (length d)
unfolding number
number_digits c d h = rw (h.0, number_rest_digits d h.1)

-- A number becomes the mark.
replace_digits :
    (c : ℕ) (d : Text) → IsDigits (c ∷ d) → replace_from number mark 0 false (c ∷ d) ≡ mark
unfolding replace_from
replace_digits c d h =
    ap (replace_at (λ k. replace_from number mark k (is_word c) d) mark c) (number_digits c d h)
    ∙ ap (λ s. b'?' ∷ s) (skip_all d (is_word c))

-- A text without a quote has no literal text.
no_strings :
    (s : Text) (before : Bool)
    → All (λ c. c ≢ quote) s
    → replace_from string_literal mark 0 before s ≡ s
unfolding replace_from string_literal
no_strings [] before h = refl
no_strings (c ∷ s) before h = rw (not_quote c h.0) (ap (λ t. c ∷ t) (no_strings s _ h.1))
  where
    not_quote : (x : ℕ) → x ≢ quote → (x == quote) ≡ false
    not_quote x n = ground arith

digit_quote : (d : Text) → IsDigits d → All (λ c. c ≢ quote) d
digit_quote [] h = tt
digit_quote (c ∷ d) h = (unfold is_digit in ground arith, digit_quote d h.1)

lower_digits : (u : Unicode) (d : Text) → IsDigits d → to_lower u d ≡ d
unfolding to_lower
lower_digits u [] h = refl
lower_digits u (c ∷ d) h =
    let same : lower_char u c ≡ c = unfold lower_char is_digit in ground (arith, h.0) in
    rw same (ap (λ s. c ∷ s) (lower_digits u d h.1))

digit_clean : (c : ℕ) → is_digit c ≡ true → (is_space c ≡ false) × ((c == b';') ≡ false)
unfolding is_digit is_space
digit_clean c h = ground arith

module _ (p : ℕ → Bool) where
  prefix-EndsClean : (a : Text) (c : ℕ) (s : Text) → EndsClean p (c ∷ s) → EndsClean p (a ++ c ∷ s)
  prefix-EndsClean [] c s h = h
  prefix-EndsClean (b ∷ []) c s h = h
  prefix-EndsClean (b ∷ b' ∷ a) c s h = prefix-EndsClean (b' ∷ a) c s h

  digits-EndsClean :
      ((c : ℕ) → is_digit c ≡ true → p c ≡ false)
      → (c : ℕ) (d : Text) → IsDigits (c ∷ d)
      → EndsClean p (c ∷ d)
  digits-EndsClean k c [] h = k c h.0
  digits-EndsClean k c (x ∷ d) h = digits-EndsClean k x d h.1

All_append : (P : ℕ → Type 0) (a b : Text) → All P a → All P b → All P (a ++ b)
All_append P [] b h k = k
All_append P (c ∷ a) b h k = (h.0, All_append P a b h.1 k)

to_lower-append : (u : Unicode) (a b : Text) → to_lower u (a ++ b) ≡ to_lower u a ++ to_lower u b
unfolding to_lower
to_lower-append u [] b = refl
to_lower-append u (c ∷ a) b = ap (λ s. lower_char u c ∷ s) (to_lower-append u a b)

module _ (u : Unicode) (c : ℕ) (p : Text) (solid : is_space c ≡ false)
    (unquoted : All (λ x. x ≢ quote) (to_lower u (c ∷ p))) where
  trimmed :
      (x : ℕ) (d : Text)
      → IsDigits (x ∷ d)
      → trim_semicolons (trim_space ((c ∷ p) ++ 32 ∷ x ∷ d)) ≡ (c ∷ p) ++ 32 ∷ x ∷ d
  trimmed x d h =
      let whole : Text = (c ∷ p) ++ 32 ∷ x ∷ d in
      let left : trim_left whole ≡ whole = unfold trim_left in rw solid in
      let clean : (q : ℕ → Bool) → ((y : ℕ) → is_digit y ≡ true → q y ≡ false) → EndsClean q whole =
        λ q k. prefix-EndsClean q (c ∷ p) 32 (x ∷ d) (digits-EndsClean q k x d h) in
      let space : trim_space whole ≡ whole =
        unfold trim_space in
        ap (rstrip_by is_space) left
        ∙ rstrip_by_clean is_space whole (clean is_space (λ y e. (digit_clean y e).0)) in
      ap trim_semicolons space
      ∙ (unfold trim_semicolons in
          rstrip_by_clean (λ y. y == b';') whole (clean _ (λ y e. (digit_clean y e).1)))

  lowered :
      (x : ℕ) (d : Text)
      → IsDigits (x ∷ d)
      → to_lower u ((c ∷ p) ++ 32 ∷ x ∷ d) ≡ to_lower u (c ∷ p) ++ 32 ∷ x ∷ d
  lowered x d h =
      to_lower-append u (c ∷ p) (32 ∷ x ∷ d)
      ∙ ap (λ s. to_lower u (c ∷ p) ++ s)
          (to_lower-append u (32 ∷ []) (x ∷ d)
            ∙ (unfold to_lower lower_char in ap (λ s. 32 ∷ s) (lower_digits u (x ∷ d) h)))

  normalize-number :
      (x : ℕ) (d : Text)
      → IsDigits (x ∷ d)
      → normalize u ((c ∷ p) ++ 32 ∷ x ∷ d)
        ≡ replace_all blanks
            (32 ∷ [])
            (replace_from number mark 0 false (to_lower u (c ∷ p)) ++ (32 ∷ mark))
  unfolding normalize
  normalize-number x d h =
      let low : Text = to_lower u (c ∷ p) in
      let strings : replace_all string_literal mark (low ++ 32 ∷ x ∷ d) ≡ low ++ 32 ∷ x ∷ d =
        no_strings (low ++ 32 ∷ x ∷ d) false (
          All_append (λ y. y ≢ quote) low (32 ∷ x ∷ d) unquoted
            (λ e. absurd (omega arith), digit_quote (x ∷ d) h)) in
      let numbers : replace_all number mark (low ++ 32 ∷ x ∷ d)
          ≡ replace_from number mark 0 false low ++ (32 ∷ mark) =
        replace_space low (x ∷ d) 0 false (omega arith)
        ∙ ap (λ s. replace_from number mark 0 false low ++ 32 ∷ s) (replace_digits x d h) in
      ap
        (λ s.
          replace_all blanks (32 ∷ [])
            (replace_all number mark (replace_all string_literal mark s)))
        (ap (to_lower u) (trimmed x d h) ∙ lowered x d h)
      ∙ ap (λ s. replace_all blanks (32 ∷ []) (replace_all number mark s)) strings
      ∙ ap (replace_all blanks (32 ∷ [])) numbers

  -- The key does not read the number that ends a statement: two statements that differ in it alone have
  -- one key, where they begin with no white space, have no single quote, and a space stands before the
  -- number.
  pub key-number :
      (digest : Text → Text) (x y : ℕ) (d e : Text)
      → IsDigits (x ∷ d)
      → IsDigits (y ∷ e)
      → key digest u ((c ∷ p) ++ 32 ∷ x ∷ d) ≡ key digest u ((c ∷ p) ++ 32 ∷ y ∷ e)
  unfolding key
  key-number digest x y d e h k = ap digest (normalize-number x d h ∙ sym (normalize-number y e k))
