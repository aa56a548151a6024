-- ===== src/Gen/Bounds.antt =====
-- How many rows are written.
use native.Mathlib.Nat.{div-lt_iff_lt-mul, div-mul-le_self, add-mul, div-eq_of_lt}
use mysql_redshift_agent.Prelude.{
  ℕ, zero, suc, ◌+◌, ◌-◌, ◌*◌, ◌/◌, ◌≤◌, ◌<◌, ◌≡◌, ◌⊎◌, refl, sym, ap, ◌∙◌, inl, inr, true, false,
  List, ◌∷◌, ◌++◌, length, arith, ltb, leb, if◌then◌else◌, Bool-cases, length-append,
}
use mysql_redshift_agent.Text.{Text}
use mysql_redshift_agent.Gen.{
  RandomSource, Args, User, capped, randint, pick_user, pick_order_count, reports_at, write_orders,
  write_users, generate,
}

-- What the generator promises: a number below a positive bound.
pub record IsSource (r : RandomSource) : Type 0 where
  pub below_lt : (n : ℕ) (s : r.State) → 0 < n → (r.below n s).0 < n

-- The three tiers of players.
abbrev pub IsTier : ℕ → Type 0
IsTier n = (1 ≤ n × n ≤ 5) ⊎ (10 ≤ n × n ≤ 50) ⊎ (100 ≤ n × n ≤ 500)

capped_bounds :
    (target n k : ℕ)
    → n < target
    → 1 ≤ k × k ≤ 500
    → (1 ≤ capped target n k) × (capped target n k ≤ 500) × (n + capped target n k ≤ target)
unfolding capped
capped_bounds target n k h b = ground arith

not_below : (a b : ℕ) → ¬ (a < b) → b ≤ a
not_below a b h = grind arith

-- Whole multiples passed by at most one step of that size.
div_between : (k n c : ℕ) → 0 < k → c ≤ k → (n / k ≤ (n + c) / k) × ((n + c) / k ≤ n / k + 1)
div_between k n c pos h =
    let below = (div-lt_iff_lt-mul {k = k} {x = n} {y = n / k + 1} pos).0 (omega arith) in
    let upper = (div-lt_iff_lt-mul {k = k} {x = n + c} {y = n / k + 2} pos).1 in
    let lower = (div-lt_iff_lt-mul {k = k} {x = n + c} {y = n / k} pos).0 in
    let whole = div-mul-le_self n k in
    let one_more = add-mul (n / k) 1 k in
    let two_more = add-mul (n / k) 2 k in
    (not_below _ _ (λ h'. omega (arith, lower h')), omega (arith, upper (omega arith)))

-- A report for each multiple that is passed.
reports_step :
    (p n c : ℕ) (reports : List ℕ)
    → c ≤ suc p
    → length (if reports_at (suc p) (n + c) c then (n + c) ∷ reports else reports) + n / suc p
      ≡ length reports + (n + c) / suc p
unfolding reports_at
reports_step p n c reports h = ground (arith, div_between (suc p) n c (omega arith) h)

leb-true : (a b : ℕ) → leb a b ≡ true → a ≤ b
leb-true a b h = ground arith

leb-false : (a b : ℕ) → leb a b ≡ false → b < a
leb-false a b h = ground arith

-- The rows of a run over the users that are left, from the number of rows before it.
abbrev Counted : ℕ → ℕ → ℕ → ℕ → ℕ → Type 0
Counted target left n written rows =
    (n + written ≡ rows)
    × (rows ≤ target)
    × ((rows ≡ target) ⊎ (n + left ≤ rows))
    × (rows ≤ n + 500 * left)

Counted-step :
    (target left n count rows : ℕ) (lines others : List Text)
    → 1 ≤ count
    → count ≤ 500
    → length lines ≡ count
    → Counted target left (n + count) (length others) rows
    → Counted target (suc left) n (length (lines ++ others)) rows
Counted-step target left n count rows lines others low high e h =
    ground (arith, length-append lines others)

module _ (r : RandomSource) (ok : IsSource r) where
  pub randint_bounds :
      (a b : ℕ) (s : r.State) → a ≤ b → (a ≤ (randint r a b s).0) × ((randint r a b s).0 ≤ b)
  unfolding randint
  randint_bounds a b s h =
      let q = ok.below_lt (b - a + 1) s (omega arith) in (omega arith, omega arith)

  -- The number of orders of a user lies in one of the three tiers.
  pub pick_order_count-IsTier : (s : r.State) → IsTier (pick_order_count r s).0
  unfolding pick_order_count
  pick_order_count-IsTier s = elim (Bool-cases (ltb (r.unit s).0 7205759403792794)) [
    | inl e ↦ rw e (inl (randint_bounds 1 5 (r.unit s).1 (omega arith)))
    | inr e ↦ elim (Bool-cases (ltb (r.unit s).0 8556839292003942)) [
      | inl e' ↦ rw (e, e') (inr (inl (randint_bounds 10 50 (r.unit s).1 (omega arith))))
      | inr e' ↦ rw (e, e') (inr (inr (randint_bounds 100 500 (r.unit s).1 (omega arith))))
    ]
  ]

  length-write_orders : (u : User) (n : ℕ) (s : r.State) → length (write_orders r u n s).0 ≡ n
  unfolding write_orders
  length-write_orders u zero s = refl
  length-write_orders u (suc n) s = ap suc (length-write_orders u n _)

  IsTier-bounds : (k : ℕ) → IsTier k → 1 ≤ k × k ≤ 500
  IsTier-bounds k h = ground arith

  user_bounds :
      (target n : ℕ) (s : r.State)
      → n < target
      → (1 ≤ capped target n (pick_order_count r s).0)
        × (capped target n (pick_order_count r s).0 ≤ 500)
        × (n + capped target n (pick_order_count r s).0 ≤ target)
  user_bounds target n s h =
      capped_bounds target n _ h (IsTier-bounds _ (pick_order_count-IsTier s))

  write_users-Counted :
      (args : Args) (left u_idx n : ℕ) (s : r.State)
      → n ≤ args.target_rows
      → Counted args.target_rows left n
          (length (write_users r args left u_idx n s).lines)
          (write_users r args left u_idx n s).rows
  unfolding write_users
  write_users-Counted args zero u_idx n s h = (omega arith, h, inr (omega arith), omega arith)
  write_users-Counted args (suc left) u_idx n s h = elim (Bool-cases (leb args.target_rows n)) [
    | inl e ↦
        let full = leb-true _ _ e in
        rw (write_users, e) (omega arith, h, inl (omega arith), omega arith)
    | inr e ↦
        let (low, high, within) =
          user_bounds args.target_rows n (pick_user r u_idx s).1 (leb-false _ _ e) in
        rw (write_users, e)
          (Counted-step args.target_rows left n _ _ _ _ low high (length-write_orders _ _ _)
            (write_users-Counted args left (u_idx + 1) _ _ within))
  ]

  write_users-reports :
      (args : Args) (p left u_idx n : ℕ) (s : r.State)
      → args.progress_every ≡ suc p
      → 500 ≤ suc p
      → length (write_users r args left u_idx n s).reports + n / suc p
        ≡ (write_users r args left u_idx n s).rows / suc p
  unfolding write_users
  write_users-reports args p zero u_idx n s e h = omega arith
  write_users-reports args p (suc left) u_idx n s e h = elim (Bool-cases (leb args.target_rows n)) [
    | inl e' ↦ rw (write_users, e') (omega arith)
    | inr e' ↦
        let (low, high, within) =
          user_bounds args.target_rows n (pick_user r u_idx s).1 (leb-false _ _ e') in
        rw (write_users, e', e)
          (reports_step p n _ _ (omega arith) ∙ write_users-reports args p left (u_idx + 1) _ _ e h)
  ]

  -- Where the generator draws below its bounds, the number of rows is that of the lines written, never
  -- more than the target and never more than 500 for each user; either the target is reached or there are
  -- at least as many rows as users.
  pub generate-rows :
      (args : Args) (s : r.State)
      → (length (generate r args s).lines ≡ (generate r args s).rows)
        × ((generate r args s).rows ≤ args.target_rows)
        × (((generate r args s).rows ≡ args.target_rows) ⊎ (args.uids ≤ (generate r args s).rows))
        × ((generate r args s).rows ≤ 500 * args.uids)
  unfolding generate
  generate-rows args s =
      let (written, most, complete, bounded) =
        write_users-Counted args args.uids 0 0 s (omega arith) in
      (omega (arith, written), most, ground arith, omega (arith, bounded))

  -- With an interval of 500 rows or more, progress is reported once for each multiple of the interval that
  -- the number of rows reaches.
  pub generate-reports :
      (args : Args) (s : r.State)
      → 500 ≤ args.progress_every
      → length (generate r args s).reports ≡ (generate r args s).rows / args.progress_every
  unfolding generate
  generate-reports args s h =
      let e : suc (args.progress_every - 1) ≡ args.progress_every = omega arith in
      let counted =
        write_users-reports args (args.progress_every - 1) args.uids 0 0 s (sym e) (omega arith) in
      let none_before = div-eq_of_lt {n = 0} {m = args.progress_every} (omega arith) in
      omega (arith, rw e at counted, none_before)
