-- ===== src/Tokens/Books/Withdraws.antt =====
-- `CreateWithdrawal` and `ReviewWithdrawal` keep the books.
use aeon_backend.Base.{
  Bool, Bool-cases, List, String, ap, arith, inl, inr, some, subst, sym, ℕ, ◌+◌, ◌<◌, ◌^◌, ◌∙◌, ◌≡◌,
  ◌≢◌, ◌≤◌, nat_key,
}
use aeon_backend.Store.{AccountToken, AuditEntry, LedgerEntry, Store, Withdrawal, next_of, row_of}
use aeon_backend.Base.Int.{+ℤ-zero, leb_ℤ, ltb_ℤ, pos, ℤ, ◌+ℤ◌, ◌<ℤ◌, ◌≤ℤ◌, +ℤ_cancel}
use aeon_backend.Tokens.Books.{Balanced, Books, is_open, locks_of, payout_weight, payouts_of}
use aeon_backend.Tokens.{create_withdrawal, debit, new_withdrawal}
use aeon_backend.Base.Rows.{
  All-insert, All-lookup, Distinct-insert, sum_by, sum_by-insert_new, sum_by-insert,
}
use aeon_backend.Tokens.Books.Accounts.{withdraw-Balanced}
use aeon_backend.Base.Dict.{insert, lookup}
use aeon_backend.Tokens.Books.Shared.{
  Balanced-put, below_mono, fresh_of_below, locks_nonneg, payouts_nonneg, ensure_token-Books,
}

-- A withdrawal request keeps the books, a refused one too, while two identifiers are left.
pub create_withdrawal-Books :
    (account : ℕ) (amount : ℤ) (wallet : String) (manual : Bool) (clock : ℕ) (s : Store)
    → Books s
    → s.next_id + 2 < 2 ^ 64
    → Books (create_withdrawal account amount wallet manual clock s).1
unfolding create_withdrawal
create_withdrawal-Books account amount wallet manual clock s b room =
    elim (Bool-cases (leb_ℤ amount (pos 0))) [
      | inl refused ↦ rw refused b
      | inr asked ↦ rw asked (elim (Bool-cases (ltb_ℤ t.withdrawable_balance amount)) [
        | inl short ↦ rw short (ensure_token-Books account s b)
        | inr covered ↦ rw covered (record {
          balanced = λ a.
              Balanced-put a account t (debit amount t) s.tokens (locks_of s a)
                (sum_by (payout_weight a) (insert (next_of s) row s.withdrawals))
                (same a (ground arith) (ground arith)) (other a);
          locks_positive = b.locks_positive;
          payouts_positive =
              All-insert _ (next_of s) row s.withdrawals (ground arith) b.payouts_positive;
          locks_distinct = b.locks_distinct;
          payouts_distinct = Distinct-insert (next_of s) row s.withdrawals b.payouts_distinct;
          locks_below = below_mono s.next_id _ s.locked_games (omega arith) b.locks_below;
          payouts_below =
              All-insert _ (next_of s) row s.withdrawals (omega arith)
                (below_mono s.next_id _ s.withdrawals (omega arith) b.payouts_below);
        })
      ])
    ]
  where
    t : AccountToken
    t = row_of account s.tokens

    row : Withdrawal
    row = new_withdrawal (next_of s) account amount wallet manual clock

    grown :
        (a : ℕ)
        → sum_by (payout_weight a) (insert (next_of s) row s.withdrawals)
          ≡ payouts_of s a +ℤ payout_weight a row
    grown a =
        sum_by-insert_new (payout_weight a) (next_of s) row s.withdrawals
          (fresh_of_below s s.withdrawals (omega arith) b.payouts_below)

    same :
        (a : ℕ)
        → pos 0 <ℤ amount
        → amount ≤ℤ t.withdrawable_balance
        → account ≡ a
        → Balanced
            (debit amount t)
            (locks_of s a)
            (sum_by (payout_weight a) (insert (next_of s) row s.withdrawals))
    same a asked covered e =
        let w : payout_weight a row ≡ amount = ground arith in
        rw (grown a ∙ ap (λ x. payouts_of s a +ℤ x) w) (
          withdraw-Balanced t amount (locks_of s a) (payouts_of s a) asked covered
            (locks_nonneg s b a) (payouts_nonneg s b a)
            (subst (λ x. Balanced (row_of x s.tokens) (locks_of s a) (payouts_of s a)) (sym e)
              (b.balanced a)))

    other :
        (a : ℕ)
        → account ≢ a
        → Balanced
            (row_of a s.tokens)
            (locks_of s a)
            (sum_by (payout_weight a) (insert (next_of s) row s.withdrawals))
    other a n =
        let w : payout_weight a row ≡ pos 0 = ground arith in
        rw (grown a ∙ ap (λ x. payouts_of s a +ℤ x) w ∙ +ℤ-zero (payouts_of s a)) (b.balanced a)

-- A withdrawal that changes its status and stays open moves no money.
module _ (s : Store) (b : Books s) (id : ℕ) (row row' : Withdrawal)
    (held : lookup id s.withdrawals ≡ some row) (same_account : row'.account_id ≡ row.account_id)
    (same_amount : row'.amount ≡ row.amount) where
  pub restate-Books :
      is_open row'.status ≡ is_open row.status
      → (n : ℕ) (ledger : List LedgerEntry) (audits : List AuditEntry) → s.next_id ≤ n
      → Books (record s {
        withdrawals = insert id row' s.withdrawals;
        next_id = n;
        ledger = ledger;
        audits = audits;
      })
  restate-Books same_open n ledger audits up = record {
    balanced =
        λ a. subst (Balanced (row_of a s.tokens) (locks_of s a)) (sym (kept a)) (b.balanced a);
    locks_positive = b.locks_positive;
    payouts_positive = All-insert _ id row' s.withdrawals positive b.payouts_positive;
    locks_distinct = b.locks_distinct;
    payouts_distinct = Distinct-insert id row' s.withdrawals b.payouts_distinct;
    locks_below = below_mono s.next_id n s.locked_games up b.locks_below;
    payouts_below =
        All-insert _ id row' s.withdrawals (omega (arith, known))
          (below_mono s.next_id n s.withdrawals up b.payouts_below);
  }
    where
      positive : pos 0 <ℤ row'.amount
      positive = rw same_amount (All-lookup _ id row s.withdrawals b.payouts_positive held)

      known : id ≤ s.next_id
      known = All-lookup _ id row s.withdrawals b.payouts_below held

      kept : (a : ℕ) → sum_by (payout_weight a) (insert id row' s.withdrawals) ≡ payouts_of s a
      kept a = +ℤ_cancel _ (payouts_of s a) (payout_weight a row) (
          sum_by-insert (payout_weight a) id row' row s.withdrawals held
          ∙ ap (λ x. payouts_of s a +ℤ x) same_weight)
        where
          same_weight : payout_weight a row' ≡ payout_weight a row
          same_weight = rw (same_account, same_amount, same_open)
