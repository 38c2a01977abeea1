-- ===== src/Tokens/History.antt =====
-- The token operations in any order, from the empty store: the states that a process reaches while
-- identifiers are left and each grant's sum with the balance is an int64.
use aeon_backend.Base.{Bool, Permᴰ, String, arith, length, refl, ℕ, ◌+◌, ◌<◌, ◌^◌, ◌≡◌}
use aeon_backend.Base.Int.{int_laws, pos, ℤ, ◌+ℤ◌, ◌<ℤ◌, ◌≤ℤ◌}
use aeon_backend.Tokens.Books.{Balanced, Books, locks_of, payouts_of}
use aeon_backend.Tokens.{
  Limits, create_withdrawal, grant_locked, process_auto_withdrawals, queued_rows, review_withdrawal,
  settle_cap, settle_unlocks,
}
use aeon_backend.Store.{LockedGame, Store, Withdrawal, new, row_of}
use aeon_backend.Base.Dict.{Dict}
use aeon_backend.Tokens.Books.Withdraws.{create_withdrawal-Books}
use aeon_backend.Tokens.Books.Grants.{grant_locked-Books}
use aeon_backend.Tokens.Books.Settles.{settle_unlocks-Books}
use aeon_backend.Tokens.Books.Reviews.{review_withdrawal-Books}
use aeon_backend.Tokens.Books.Payments.{process_auto_withdrawals-Books}

-- One call of an operation. The side conditions are those of the machine: enough identifiers
-- are left, a grant's sum is an int64, and `range` visits each row of a map once.
pub data Step (s : Store) : Store → Type 0 where
  grants :
      (account : ℕ) (amount : ℤ) (source ref : String) (unlock_at clock : ℕ)
      → s.next_id + 2 < 2 ^ 64
      → (row_of account s.tokens).token_balance +ℤ amount <ℤ pos (2 ^ 63)
      → Step s (grant_locked account amount source ref unlock_at clock s).1
  settles :
      (now : ℕ) (limit : ℤ) (visit : Dict ℕ LockedGame → Dict ℕ LockedGame) (clock : ℕ)
      → Permᴰ s.locked_games (visit s.locked_games)
      → s.next_id + settle_cap limit < 2 ^ 64
      → Step s (settle_unlocks now limit visit clock s).1
  requests :
      (account : ℕ) (amount : ℤ) (wallet : String) (manual : Bool) (clock : ℕ)
      → s.next_id + 2 < 2 ^ 64
      → Step s (create_withdrawal account amount wallet manual clock s).1
  runs :
      (now : ℕ) (l : Limits) (limit : ℤ) (visit₁ visit₂ : Dict ℕ Withdrawal → Dict ℕ Withdrawal)
      (stamp : String) (clock : ℕ)
      → Permᴰ s.withdrawals (visit₂ s.withdrawals)
      → s.next_id + length (queued_rows visit₂ s) < 2 ^ 64
      → Step s (process_auto_withdrawals now l limit visit₁ visit₂ stamp clock s).1
  reviews :
      (id : ℕ) (approve : Bool) (admin reason : String) (clock : ℕ)
      → s.next_id + 1 < 2 ^ 64
      → Step s (review_withdrawal id approve admin reason clock s).1

pub data Reach (s : Store) : Store → Type 0 where
  here : Reach s s
  next_step : {t u : Store} → Reach s t → Step t u → Reach s u

pub Step-Books : {s t : Store} → Step s t → Books s → Books t
Step-Books {s} (grants account amount source ref unlock_at clock room fits) b =
    grant_locked-Books account amount source ref unlock_at clock s b room fits
Step-Books {s} (settles now limit visit clock p room) b =
    settle_unlocks-Books now limit visit clock s p b room
Step-Books {s} (requests account amount wallet manual clock room) b =
    create_withdrawal-Books account amount wallet manual clock s b room
Step-Books {s} (runs now l limit visit₁ visit₂ stamp clock p room) b =
    process_auto_withdrawals-Books now l limit visit₁ visit₂ stamp clock s p b room
Step-Books {s} (reviews id approve admin reason clock room) b =
    review_withdrawal-Books id approve admin reason clock s b room

-- The empty store's books are in order.
pub new-Books : Books new
unfolding new row_of
new-Books = record {
  balanced = λ a. record {
    total = grind int_laws;
    held = refl;
    solvent = omega arith;
    small = omega arith;
  };
  locks_positive = tt;
  payouts_positive = tt;
  locks_distinct = tt;
  payouts_distinct = tt;
  locks_below = tt;
  payouts_below = tt;
}

pub Reach-Books : {s : Store} → Reach new s → Books s
Reach-Books here = new-Books
Reach-Books (next_step r st) = Step-Books st (Reach-Books r)

-- After token operations in any order from the empty store, every account's token balance is its
-- withdrawable balance, plus the sum of its locked rows, plus the sum of its withdrawals that were
-- not rejected, and its withdrawable balance is not negative. The conditions are those of `Step`:
-- each operation keeps the identifiers that it may hand out below 2 ^ 64, each grant's amount and the
-- account's token balance sum to less than 2 ^ 63, and `range` visits each row of a map once.
pub Reach-conserves :
    (s : Store)
    → Reach new s
    → (a : ℕ)
    → let t = row_of a s.tokens in
      (t.token_balance ≡ t.withdrawable_balance +ℤ locks_of s a +ℤ payouts_of s a)
      × (pos 0 ≤ℤ t.withdrawable_balance)
Reach-conserves s r a =
    let b : Balanced (row_of a s.tokens) (locks_of s a) (payouts_of s a) =
      (Reach-Books r).balanced a in
    (rw (← b.held) b.total, b.solvent)
