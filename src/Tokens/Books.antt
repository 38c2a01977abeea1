-- ===== src/Tokens/Books.antt =====
-- The books of the token store: for each account, what is locked, withdrawable and on its way
-- out adds up to the token balance, after every operation.
pub mod Accounts
pub mod Shared
pub mod Grants
pub mod Settles
pub mod Withdraws
pub mod Reviews
pub mod Payments
use aeon_backend.Base.{
  ℕ, ◌^◌, ◌≤◌, ◌≡◌, Bool, true, false, ◌&&◌, arith, ◌==◌, if◌then◌else◌, All, nat_key,
}
use aeon_backend.Base.Int.{
  ℤ, pos, ◌+ℤ◌, ◌-ℤ◌, ◌≤ℤ◌, ◌<ℤ◌, add64, sub64, int_laws, add64_nonneg, sub64_nonneg,
}
use aeon_backend.Base.Rows.{Distinct, sum_by}
use aeon_backend.Store.{
  Store, AccountToken, LockedGame, Withdrawal, WithdrawalStatus, queued, manual_review, submitted,
  confirmed, rejected, row_of,
}
use aeon_backend.Tokens.{is_locked, debit, lock_amount, refund, unlock_amount}

-- A withdrawal that has taken its amount from the account, and has not given it back.
abbrev pub is_open : WithdrawalStatus → Bool
is_open rejected = false
is_open queued = true
is_open manual_review = true
is_open submitted = true
is_open confirmed = true

abbrev pub lock_weight : ℕ → LockedGame → ℤ
lock_weight a r = if r.account_id == a && is_locked r.status then r.amount else pos 0

abbrev pub payout_weight : ℕ → Withdrawal → ℤ
payout_weight a r = if r.account_id == a && is_open r.status then r.amount else pos 0

-- What the account has locked, and what its withdrawals have taken.
abbrev pub locks_of : Store → ℕ → ℤ
locks_of s a = sum_by (lock_weight a) s.locked_games

abbrev pub payouts_of : Store → ℕ → ℤ
payouts_of s a = sum_by (payout_weight a) s.withdrawals

-- One account: `locks` are its locked rows, `payouts` its open withdrawals.
pub record Balanced (t : AccountToken) (locks payouts : ℤ) : Type 0 where
  pub total : t.token_balance ≡ t.withdrawable_balance +ℤ t.locked_balance +ℤ payouts
  pub held : t.locked_balance ≡ locks
  pub solvent : pos 0 ≤ℤ t.withdrawable_balance
  pub small : t.token_balance <ℤ pos (2 ^ 63)

-- All accounts. Amounts are positive, and an identifier is used once, below the counter.
pub record Books (s : Store) : Type 0 where
  pub balanced :
      (a : ℕ)
      → Balanced
          (row_of a s.tokens)
          (sum_by (lock_weight a) s.locked_games)
          (sum_by (payout_weight a) s.withdrawals)
  pub locks_positive : All (λ e. pos 0 <ℤ e.1.amount) s.locked_games
  pub payouts_positive : All (λ e. pos 0 <ℤ e.1.amount) s.withdrawals
  pub locks_distinct : Distinct s.locked_games
  pub payouts_distinct : Distinct s.withdrawals
  pub locks_below : All (λ e. e.0 ≤ s.next_id) s.locked_games
  pub payouts_below : All (λ e. e.0 ≤ s.next_id) s.withdrawals
