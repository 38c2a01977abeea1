-- ===== src/Tokens/Books/Reviews.antt =====
-- `ReviewWithdrawal` keeps the books.
use aeon_backend.Base.{
  Bool, Bool-cases, Option-cases, String, ap, arith, false, inl, inr, refl, some, subst, sym, true,
  ℕ, ◌+◌, ◌<◌, ◌^◌, ◌∙◌, ◌≡◌, ◌≢◌, ◌≤◌, nat_key,
}
use aeon_backend.Tokens.{decide, is_in_review, refund, review_withdrawal}
use aeon_backend.Tokens.Books.{Balanced, Books, locks_of, payout_weight, payouts_of}
use aeon_backend.Base.Int.{+ℤ-zero, +ℤ_cancel, pos, ◌+ℤ◌, ◌<ℤ◌, ◌≤ℤ◌}
use aeon_backend.Store.{
  AccountToken, Store, Withdrawal, WithdrawalStatus, confirmed, manual_review, next_of, queued,
  rejected, row_of, submitted,
}
use aeon_backend.Base.Rows.{
  All-insert, All-lookup, Distinct-insert, sum_by, sum_by-insert, sum_by_nonneg,
}
use aeon_backend.Tokens.Books.Shared.{Balanced-put, below_mono, locks_nonneg, payout_weight_nonneg}
use aeon_backend.Tokens.Books.Accounts.{refund-Balanced}
use aeon_backend.Base.Dict.{insert, lookup}
use aeon_backend.Tokens.Books.Withdraws.{restate-Books}

-- A rejected row is no longer open, and its amount is withdrawable again.
module _ (s : Store) (b : Books s) (id : ℕ) (row : Withdrawal)
    (held : lookup id s.withdrawals ≡ some row) (in_review : row.status ≡ manual_review)
    (admin reason : String) (clock : ℕ) (room : s.next_id + 1 < 2 ^ 64) where
  closed : Withdrawal
  closed = record row { status = rejected; reason = reason }

  reject-Books : Books (decide id row false admin reason clock s).1
  unfolding decide closed
  reject-Books = record {
    balanced = λ a.
        Balanced-put a row.account_id t (refund row.amount t) s.tokens (locks_of s a)
          (sum_by (payout_weight a) (insert id closed s.withdrawals)) (same a) (other a);
    locks_positive = b.locks_positive;
    payouts_positive = All-insert _ id closed s.withdrawals positive b.payouts_positive;
    locks_distinct = b.locks_distinct;
    payouts_distinct = Distinct-insert id closed s.withdrawals b.payouts_distinct;
    locks_below = below_mono s.next_id _ s.locked_games (omega arith) b.locks_below;
    payouts_below =
        All-insert _ id closed s.withdrawals (omega (arith, known))
          (below_mono s.next_id _ s.withdrawals (omega arith) b.payouts_below);
  }
    where
      t : AccountToken
      t = row_of row.account_id s.tokens

      positive : pos 0 <ℤ row.amount
      positive = All-lookup _ id row s.withdrawals b.payouts_positive held

      known : id ≤ s.next_id
      known = All-lookup _ id row s.withdrawals b.payouts_below held

      shrunk :
          (a : ℕ)
          → sum_by (payout_weight a) (insert id closed s.withdrawals) +ℤ payout_weight a row
            ≡ payouts_of s a +ℤ pos 0
      shrunk a =
          sum_by-insert (payout_weight a) id closed row s.withdrawals held
          ∙ ap (λ x. payouts_of s a +ℤ x) (ground arith)

      after_nonneg : (a : ℕ) → pos 0 ≤ℤ sum_by (payout_weight a) (insert id closed s.withdrawals)
      after_nonneg a = sum_by_nonneg (payout_weight a) (insert id closed s.withdrawals) (
          payout_weight_nonneg a (insert id closed s.withdrawals)
            (All-insert _ id closed s.withdrawals positive b.payouts_positive))

      same :
          (a : ℕ)
          → row.account_id ≡ a
          → Balanced
              (refund row.amount t)
              (locks_of s a)
              (sum_by (payout_weight a) (insert id closed s.withdrawals))
      same a e =
          let w : payout_weight a row ≡ row.amount = ground arith in
          refund-Balanced t row.amount (locks_of s a) (payouts_of s a)
            (sum_by (payout_weight a) (insert id closed s.withdrawals)) positive
            (locks_nonneg s b a) (after_nonneg a) (rw w at (shrunk a) ∙ +ℤ-zero (payouts_of s a))
            (subst (λ x. Balanced (row_of x s.tokens) (locks_of s a) (payouts_of s a)) (sym e)
              (b.balanced a))

      other :
          (a : ℕ)
          → row.account_id ≢ a
          → Balanced
              (row_of a s.tokens)
              (locks_of s a)
              (sum_by (payout_weight a) (insert id closed s.withdrawals))
      other a n =
          let w : payout_weight a row ≡ pos 0 = ground arith in
          subst (Balanced (row_of a s.tokens) (locks_of s a))
            (sym (+ℤ_cancel _ (payouts_of s a) (pos 0) (rw w at (shrunk a)))) (b.balanced a)

  decide-Books : (approve : Bool) → Books (decide id row approve admin reason clock s).1
  unfolding decide
  decide-Books true =
      restate-Books s b id row _ held refl refl (rw in_review) (next_of s) s.ledger _ (omega arith)
  decide-Books false = reject-Books

in_review_of : (x : WithdrawalStatus) → is_in_review x ≡ true → x ≡ manual_review
in_review_of queued e = cc
in_review_of manual_review e = refl
in_review_of submitted e = cc
in_review_of confirmed e = cc
in_review_of rejected e = cc

-- A review keeps the books, whether it approves, rejects and refunds, or is refused, while an
-- identifier is left.
pub review_withdrawal-Books :
    (id : ℕ) (approve : Bool) (admin reason : String) (clock : ℕ) (s : Store)
    → Books s
    → s.next_id + 1 < 2 ^ 64
    → Books (review_withdrawal id approve admin reason clock s).1
unfolding review_withdrawal
review_withdrawal-Books id approve admin reason clock s b room =
    elim (Option-cases (lookup id s.withdrawals)) [
      | inl missing ↦ rw (missing, review_withdrawal) b
      | inr (row, held) ↦
          rw (held, review_withdrawal)
            (elim (Bool-cases (is_in_review row.status)) [
              | inl e ↦ rw e (
                  decide-Books s b id row held (in_review_of row.status e) admin reason clock room
                    approve)
              | inr e ↦ rw e b
            ])
    ]
