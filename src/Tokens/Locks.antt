-- ===== src/Tokens/Locks.antt =====
-- `GrantLocked` and `SettleUnlocks` of internal/platform/store/store.go.
use aeon_backend.Base.{
  ℕ, String, List, [], ◌∷◌, Bool, ◌&&◌, leb, if◌then◌else◌, Result, ok, err, Error, take, sort_by,
  nat_key,
}
use aeon_backend.Base.Int.{ℤ, pos, pos_part, add64, sub64, leb_ℤ}
use aeon_backend.Base.Dict.{Dict, insert}
use aeon_backend.Base.Rows.{select}
use aeon_backend.Store.{
  Store, AccountToken, LockedGame, LockStatus, locked, unlocked, next, ensure_token, put_token,
  add_ledger,
}

abbrev pub is_locked : LockStatus → Bool
is_locked locked = Bool.true
is_locked unlocked = Bool.false

-- The new row, and what `GrantLocked` and `SettleUnlocks` do to the balances.
abbrev pub new_lock : ℕ → ℕ → ℤ → String → String → ℕ → ℕ → LockedGame
new_lock id account amount source ref unlock_at clock = record {
  id = id;
  account_id = account;
  amount = amount;
  source = source;
  status = locked;
  ref = ref;
  created_at = clock;
  unlock_at = unlock_at;
}

abbrev pub lock_amount : ℤ → AccountToken → AccountToken
lock_amount n t = record t {
  token_balance = add64 t.token_balance n;
  locked_balance = add64 t.locked_balance n;
}

abbrev pub unlock_amount : ℤ → AccountToken → AccountToken
unlock_amount n t = record t {
  locked_balance = sub64 t.locked_balance n;
  withdrawable_balance = add64 t.withdrawable_balance n;
}

-- `unlock_at` is the caller's time, `clock` the time of the call.
unfoldable pub grant_locked : ℕ → ℤ → String → String → ℕ → ℕ → Store → Result LockedGame × Store
unfolding ensure_token put_token add_ledger
grant_locked account amount source ref unlock_at clock s =
    if leb_ℤ amount (pos 0)
    then (err (Error.message "amount must be positive"), s)
    else (let (token, s₁) = ensure_token account s in
        let (id, s₂) = next s₁ in
        let row = new_lock id account amount source ref unlock_at clock in
        let s₃ : Store = record s₂ { locked_games = insert id row s₂.locked_games } in
        (
          ok row,
          add_ledger account "LOCKED_TOKEN_GRANTED" amount ref source clock
              (put_token account (lock_amount amount token) s₃),
        ))

-- `row.Status == "locked" && !row.UnlockAt.After(now)`
abbrev pub is_due : ℕ → ℕ × LockedGame → Bool
is_due now e = is_locked e.1.status && leb e.1.unlock_at now

-- The most rows that one call settles.
abbrev pub settle_cap : ℤ → ℕ
settle_cap limit = if leb_ℤ limit (pos 0) then 100 else pos_part limit

-- The rows that one call settles: due, the earliest first, and at most `limit` of them (100 if
-- that is not positive). `visit` is the order in which `range` goes through the map.
unfoldable pub due_rows :
    ℕ → ℤ → (Dict ℕ LockedGame → Dict ℕ LockedGame) → Store → Dict ℕ LockedGame
unfolding select sort_by
due_rows now limit visit s =
    take (settle_cap limit)
      (sort_by (λ e. e.1.unlock_at) (select (is_due now) (visit s.locked_games)))

-- The body of the loop, at the row `e.1` with the key `e.0`.
unfoldable pub settle_row : ℕ → ℕ × LockedGame → Store → LockedGame × Store
unfolding ensure_token put_token add_ledger
settle_row clock e s =
    let row : LockedGame = e.1 in
    let (token, s₁) = ensure_token row.account_id s in
    let row' : LockedGame = record row { status = unlocked } in
    let s₂ : Store = record s₁ { locked_games = insert e.0 row' s₁.locked_games } in
    (
      row',
      add_ledger row.account_id "LOCKED_TOKEN_UNLOCKED" row.amount row.ref row.source clock
          (put_token row.account_id (unlock_amount row.amount token) s₂),
    )

unfoldable pub settle_rows : ℕ → Dict ℕ LockedGame → Store → List LockedGame × Store
settle_rows clock [] s = ([], s)
settle_rows clock (e ∷ es) s =
    let (row, s') = settle_row clock e s in
    let (rows, t) = settle_rows clock es s' in (row ∷ rows, t)

unfoldable pub settle_unlocks :
    ℕ → ℤ → (Dict ℕ LockedGame → Dict ℕ LockedGame) → ℕ → Store → List LockedGame × Store
settle_unlocks now limit visit clock s = settle_rows clock (due_rows now limit visit s) s
