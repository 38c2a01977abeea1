-- ===== src/Tokens/Books/Grants.antt =====
-- `GrantLocked` keeps the books.
-- A grant keeps the books, if the identifiers and the balance have room for it.
use aeon_backend.Base.Int.{+ℤ-zero, leb_ℤ, pos, ℤ, ◌+ℤ◌, ◌<ℤ◌}
use aeon_backend.Base.{
  Bool-cases, String, ap, arith, false, inl, inr, subst, sym, ℕ, ◌+◌, ◌<◌, ◌^◌, ◌∙◌, ◌≡◌, ◌≢◌,
  nat_key,
}
use aeon_backend.Tokens.Books.{Balanced, Books, lock_weight, locks_of, payouts_of}
use aeon_backend.Tokens.{grant_locked, lock_amount, new_lock}
use aeon_backend.Tokens.Books.Shared.{
  Balanced-put, below_mono, fresh_of_below, locks_nonneg, payouts_nonneg,
}
use aeon_backend.Base.Rows.{All-insert, Distinct-insert, sum_by, sum_by-insert_new}
use aeon_backend.Store.{LockedGame, Store, next_of, row_of}
use aeon_backend.Base.Dict.{insert}
use aeon_backend.Tokens.Books.Accounts.{grant-Balanced}

-- A grant keeps the books, a refused one too, while two identifiers are left and the account's
-- balance with the amount is an int64: for every account, the token balance stays the withdrawable
-- balance plus the sum of its locked rows plus the sum of its open withdrawals.
pub grant_locked-Books :
    (account : ℕ) (amount : ℤ) (source ref : String) (unlock_at clock : ℕ) (s : Store)
    → Books s
    → s.next_id + 2 < 2 ^ 64
    → (row_of account s.tokens).token_balance +ℤ amount <ℤ pos (2 ^ 63)
    → Books (grant_locked account amount source ref unlock_at clock s).1
unfolding grant_locked
grant_locked-Books account amount source ref unlock_at clock s b room fits =
    elim (Bool-cases (leb_ℤ amount (pos 0))) [
      | inl refused ↦ rw refused b
      | inr granted ↦ rw granted (record {
        balanced = λ a. Balanced-put a account _ _ s.tokens _ _ (same granted a) (other granted a);
        locks_positive =
            All-insert _ (next_of s) row s.locked_games (ground arith) b.locks_positive;
        payouts_positive = b.payouts_positive;
        locks_distinct = Distinct-insert (next_of s) row s.locked_games b.locks_distinct;
        payouts_distinct = b.payouts_distinct;
        locks_below =
            All-insert _ (next_of s) row s.locked_games (omega arith)
              (below_mono s.next_id _ s.locked_games (omega arith) b.locks_below);
        payouts_below = below_mono s.next_id _ s.withdrawals (omega arith) b.payouts_below;
      })
    ]
  where
    row : LockedGame
    row = new_lock (next_of s) account amount source ref unlock_at clock

    grown :
        (a : ℕ)
        → sum_by (lock_weight a) (insert (next_of s) row s.locked_games)
          ≡ locks_of s a +ℤ lock_weight a row
    grown a =
        sum_by-insert_new (lock_weight a) (next_of s) row s.locked_games
          (fresh_of_below s s.locked_games (omega arith) b.locks_below)

    same :
        leb_ℤ amount (pos 0) ≡ false
        → (a : ℕ) → account ≡ a
        → Balanced
            (lock_amount amount (row_of account s.tokens))
            (sum_by (lock_weight a) (insert (next_of s) row s.locked_games))
            (payouts_of s a)
    same g a e =
        let w : lock_weight a row ≡ amount = ground arith in
        rw (grown a ∙ ap (λ x. locks_of s a +ℤ x) w) (
          grant-Balanced (row_of account s.tokens) amount (locks_of s a) (payouts_of s a)
            (ground arith) (locks_nonneg s b a) (payouts_nonneg s b a) fits
            (subst (λ x. Balanced (row_of x s.tokens) (locks_of s a) (payouts_of s a)) (sym e)
              (b.balanced a)))

    other :
        leb_ℤ amount (pos 0) ≡ false
        → (a : ℕ) → account ≢ a
        → Balanced
            (row_of a s.tokens)
            (sum_by (lock_weight a) (insert (next_of s) row s.locked_games))
            (payouts_of s a)
    other g a n =
        let w : lock_weight a row ≡ pos 0 = ground arith in
        rw (grown a ∙ ap (λ x. locks_of s a +ℤ x) w ∙ +ℤ-zero (locks_of s a)) (b.balanced a)
