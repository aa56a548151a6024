-- ===== src/Gen/Every.antt =====
-- What holds of every line that is written.
use mysql_redshift_agent.Prelude.{
  ℕ, zero, suc, ◌+◌, ◌<◌, ◌≡◌, arith, inl, inr, List, [], ◌∷◌, ◌++◌, All, leb, Bool-cases,
}
use mysql_redshift_agent.Text.{Text}
use mysql_redshift_agent.Gen.{
  RandomSource, Args, User, line_of, pick_user, pick_order, write_orders, write_users, generate,
}

All-append {ℓ κ} :
    {A : Type ℓ} (P : A → Type κ) (xs ys : List A) → All P xs → All P ys → All P (xs ++ ys)
All-append P [] ys h k = k
All-append P (x ∷ xs) ys h k = (h.0, All-append P xs ys h.1 k)

-- A predicate on lines holds of all of them if it holds of every order of a user that is picked, by an
-- index below the number of users.
module _ (r : RandomSource) (args : Args) (P : Text → Type 0) (Q : User → Type 0)
    (users : (u_idx : ℕ) (s : r.State) → u_idx < args.uids → Q (pick_user r u_idx s).0)
    (orders : (u : User) (s : r.State) → Q u → P (line_of (pick_order r u s).0)) where
  write_orders-All : (u : User) (n : ℕ) (s : r.State) → Q u → All P (write_orders r u n s).0
  unfolding write_orders
  write_orders-All u zero s h = tt
  write_orders-All u (suc n) s h = (orders u s h, write_orders-All u n _ h)

  write_users-All :
      (left u_idx n : ℕ) (s : r.State)
      → u_idx + left ≡ args.uids
      → All P (write_users r args left u_idx n s).lines
  unfolding write_users
  write_users-All zero u_idx n s h = tt
  write_users-All (suc left) u_idx n s h = elim (Bool-cases (leb args.target_rows n)) [
    | inl e ↦ rw (write_users, e) tt
    | inr e ↦
        rw (write_users, e)
          (All-append P _ _ (write_orders-All _ _ _ (users u_idx s (omega (arith, h))))
            (write_users-All left (u_idx + 1) _ _ (omega (arith, h))))
  ]

  pub generate-All : (s : r.State) → All P (generate r args s).lines
  unfolding generate
  generate-All s = write_users-All args.uids 0 0 s (omega arith)
