-- ===== src/Proxy/Numbers.antt =====
-- The numbers of a statement before and behind a space are replaced apart.
use mysql_redshift_agent.Prelude.{
  ℕ, zero, suc, ◌+◌, ◌≤◌, ◌≡◌, refl, ap, ◌∙◌, inl, inr, Bool, true, false, Option, none, some, [],
  ◌∷◌, ◌++◌, length, length-drop, drop, Bool-cases, arith,
}
use mysql_redshift_agent.Text.{Text}
use mysql_redshift_agent.Proxy.Normalize.{
  is_digit, run_length, is_word, replace_at, replace_from, starts_word, fraction, number_end,
  number_rest, number, mark,
}

run_length-le : (p : ℕ → Bool) (s : Text) → run_length p s ≤ length s
unfolding run_length
run_length-le p [] = omega arith
run_length-le p (c ∷ s) = ground (arith, run_length-le p s)

drop_append : (n : ℕ) (p q : Text) → n ≤ length p → drop n (p ++ q) ≡ drop n p ++ q
drop_append zero p q h = refl
drop_append (suc n) [] q h = absurd (omega arith)
drop_append (suc n) (c ∷ p) q h = drop_append n p q (omega arith)

-- A space ends what the pattern of numbers reads.
module _ (d : Text) where
  run_length_space : (p : Text) → run_length is_digit (p ++ 32 ∷ d) ≡ run_length is_digit p
  unfolding run_length is_digit
  run_length_space [] = refl
  run_length_space (c ∷ p) = rw (run_length_space p)

  starts_word_space : (p : Text) → starts_word (p ++ 32 ∷ d) ≡ starts_word p
  unfolding starts_word
  starts_word_space [] = refl
  starts_word_space (c ∷ p) = refl

  drop_space :
      (p : Text)
      → drop (run_length is_digit p) (p ++ 32 ∷ d) ≡ drop (run_length is_digit p) p ++ 32 ∷ d
  drop_space p = drop_append (run_length is_digit p) p (32 ∷ d) (run_length-le is_digit p)

  number_end_space :
      (n : ℕ) (p : Text) (o : Option ℕ) → number_end n (p ++ 32 ∷ d) o ≡ number_end n p o
  unfolding number_end
  number_end_space n p (some k) = refl
  number_end_space n p none = rw (starts_word_space p)

  fraction_space : (p : Text) → fraction (p ++ 32 ∷ d) ≡ fraction p
  unfolding fraction
  fraction_space [] = refl
  fraction_space (c ∷ p) =
      let n = run_length is_digit p in
      rw (run_length_space p, drop_space p, starts_word_space (drop n p))

  number_rest_space : (p : Text) → number_rest (p ++ 32 ∷ d) ≡ number_rest p
  unfolding number_rest
  number_rest_space p =
      let n = run_length is_digit p in
      rw (run_length_space p, drop_space p, fraction_space (drop n p))
        (number_end_space n (drop n p) (fraction (drop n p)))

  number_space :
      (before : Bool) (c : ℕ) (p : Text) → number before (c ∷ p ++ 32 ∷ d) ≡ number before (c ∷ p)
  unfolding number
  number_space before c p = rw (number_rest_space p)

fraction-le : (s : Text) (k : ℕ) → fraction s ≡ some k → k ≤ length s
unfolding fraction
fraction-le [] k h = absurd (cc)
fraction-le (c ∷ s) k h = ground (arith, run_length-le is_digit s)

number_end-le :
    (n : ℕ) (rest : Text) (o : Option ℕ) (k m : ℕ)
    → n ≤ m
    → ((j : ℕ) → o ≡ some j → n + j ≤ m)
    → number_end n rest o ≡ some k
    → k ≤ m
unfolding number_end
number_end-le n rest (some j) k m a b h = let q : n + j ≡ k = cc in omega (arith, q, b j refl)
number_end-le n rest none k m a b h = elim (Bool-cases (starts_word rest)) [
  | inl e ↦ absurd (cc (rw e at h))
  | inr e ↦ let q : n ≡ k = cc (rw e at h) in omega (arith, q)
]

number_rest-le : (s : Text) (k : ℕ) → number_rest s ≡ some k → k ≤ length s
unfolding number_rest
number_rest-le s k h =
    let n = run_length is_digit s in
    let shorter = run_length-le is_digit s in
    number_end-le n (drop n s) (fraction (drop n s)) k (length s) shorter
      (λ j e. omega (arith, shorter, length-drop n s, fraction-le (drop n s) j e)) h

number-le :
    (before : Bool) (c : ℕ) (s : Text) (k : ℕ) → number before (c ∷ s) ≡ some k → k ≤ length s
unfolding number
number-le before c s k h = ground (arith, number_rest-le s k)

-- The numbers before and behind a space are replaced apart.
pub replace_space :
    (p d : Text) (k : ℕ) (before : Bool)
    → k ≤ length p
    → replace_from number mark k before (p ++ 32 ∷ d)
      ≡ replace_from number mark k before p ++ (32 ∷ replace_from number mark 0 false d)
unfolding replace_from
replace_space [] d zero true h = unfold number in refl
replace_space [] d zero false h = unfold number in refl
replace_space [] d (suc k) before h = absurd (omega arith)
replace_space (c ∷ p) d (suc k) before h = replace_space p d k _ (omega arith)
replace_space (c ∷ p) d zero before h =
    ap (replace_at (λ k. replace_from number mark k (is_word c) (p ++ 32 ∷ d)) mark c)
      (number_space d before c p)
    ∙ at (number before (c ∷ p)) (λ n e. number-le before c p n e)
        (λ n b. replace_space p d n (is_word c) b)
  where
    at :
        (o : Option ℕ)
        → ((n : ℕ) → o ≡ some n → n ≤ length p)
        → ((n : ℕ)
            → n ≤ length p
            → replace_from number mark n (is_word c) (p ++ 32 ∷ d)
              ≡ replace_from number mark n (is_word c) p
                ++ (32 ∷ replace_from number mark 0 false d))
        → replace_at (λ k. replace_from number mark k (is_word c) (p ++ 32 ∷ d)) mark c o
          ≡ replace_at (λ k. replace_from number mark k (is_word c) p) mark c o
            ++ (32 ∷ replace_from number mark 0 false d)
    at none b ih = ap (λ s. c ∷ s) (ih 0 (omega arith))
    at (some n) b ih = ap (λ s. b'?' ∷ s) (ih n (b n refl))
