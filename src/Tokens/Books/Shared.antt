-- ===== src/Tokens/Books/Shared.antt =====
-- What every operation on the books needs: fresh identifiers, weights, a write to one account.
-- An identifier that `next` hands out is not in use.
use aeon_backend.Base.Int.{pos, ℤ, ◌<ℤ◌, ◌≤ℤ◌}
use aeon_backend.Base.{
  All, Bool-cases, arith, inl, inr, none, ℕ, ◌+◌, ◌<◌, ◌==◌, ◌^◌, ◌≡◌, ◌≢◌, ◌≤◌, nat_key,
}
use aeon_backend.Base.Dict.{Dict, insert, lookup}
use aeon_backend.Store.{
  AccountToken, LockedGame, Store, Withdrawal, next_of, row_of, row_of-insert, ensure_token,
  row_of-ensure,
}
use aeon_backend.Tokens.Books.{Balanced, Books, lock_weight, locks_of, payout_weight, payouts_of}
use aeon_backend.Base.Rows.{All-map, lookup-Absent, sum_by_nonneg}

module _ {ℓ} {V : Type ℓ} where
  pub fresh_of_below :
      (s : Store) (m : Dict ℕ V)
      → s.next_id + 1 < 2 ^ 64
      → All (λ e. e.0 ≤ s.next_id) m
      → lookup (next_of s) m ≡ none
  fresh_of_below s m h b =
      lookup-Absent (next_of s) m (All-map _ _ (λ e le. λ p. absurd (omega arith)) m b)

  -- The counter only moves up.
  pub below_mono : (n n' : ℕ) (m : Dict ℕ V) → n ≤ n' → All (λ e. e.0 ≤ n) m → All (λ e. e.0 ≤ n') m
  below_mono n n' m h b = All-map _ _ (λ e le. omega arith) m b

pub lock_weight_nonneg :
    (a : ℕ) (m : Dict ℕ LockedGame)
    → All (λ e. pos 0 <ℤ e.1.amount) m
    → All (λ e. pos 0 ≤ℤ lock_weight a e.1) m
lock_weight_nonneg a m h = All-map _ _ (λ e p. ground arith) m h

pub payout_weight_nonneg :
    (a : ℕ) (m : Dict ℕ Withdrawal)
    → All (λ e. pos 0 <ℤ e.1.amount) m
    → All (λ e. pos 0 ≤ℤ payout_weight a e.1) m
payout_weight_nonneg a m h = All-map _ _ (λ e p. ground arith) m h

module _ (s : Store) (b : Books s) (a : ℕ) where
  pub locks_nonneg : pos 0 ≤ℤ locks_of s a
  locks_nonneg =
      sum_by_nonneg (lock_weight a) s.locked_games
        (lock_weight_nonneg a s.locked_games b.locks_positive)

  pub payouts_nonneg : pos 0 ≤ℤ payouts_of s a
  payouts_nonneg =
      sum_by_nonneg (payout_weight a) s.withdrawals
        (payout_weight_nonneg a s.withdrawals b.payouts_positive)

-- A write to one account's row, behind the one that `ensureTokenLocked` makes.
pub Balanced-put :
    (a account : ℕ) (t t' : AccountToken) (m : Dict ℕ AccountToken) (l p : ℤ)
    → (account ≡ a → Balanced t' l p)
    → (account ≢ a → Balanced (row_of a m) l p)
    → Balanced (row_of a (insert account t' (insert account t m))) l p
Balanced-put a account t t' m l p same other = elim (Bool-cases (account == a)) [
  | inl e ↦ rw row_of-insert (rw e (same (ground arith)))
  | inr e ↦ rw row_of-insert (rw e (rw row_of-insert (rw e (other (λ q. ground arith)))))
]

-- `ensureTokenLocked` alone keeps the books.
pub ensure_token-Books : (account : ℕ) (s : Store) → Books s → Books (ensure_token account s).1
unfolding ensure_token
ensure_token-Books account s b = record {
  balanced = λ a. rw row_of-ensure (b.balanced a);
  locks_positive = b.locks_positive;
  payouts_positive = b.payouts_positive;
  locks_distinct = b.locks_distinct;
  payouts_distinct = b.payouts_distinct;
  locks_below = b.locks_below;
  payouts_below = b.payouts_below;
}
