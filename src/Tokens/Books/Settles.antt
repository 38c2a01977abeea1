-- ===== src/Tokens/Books/Settles.antt =====
-- `SettleUnlocks` keeps the books.
-- Settling a row that the map holds, locked, keeps the books.
use aeon_backend.Base.Rows.{
  All-insert, All-lookup, Distinct, Distinct-insert, Holds, Holds-insert, le-sum_by, sum_by,
  sum_by-insert, Absent, All-map, All-perm, All-select, All-sort_by, All-take, Distinct-perm,
  Distinct-select, Distinct-sort_by, Distinct-take, Holds-self, select-All,
}
use aeon_backend.Tokens.Books.{Balanced, Books, lock_weight, locks_of, payouts_of}
use aeon_backend.Base.{
  All, [], arith, length, refl, some, subst, sym, true, ℕ, ◌+◌, ◌<◌, ◌^◌, ◌∙◌, ◌∷◌, ◌≡◌, ◌≢◌, ◌≤◌,
  nat_key, Permᴰ, length-take,
}
use aeon_backend.Tokens.Books.Accounts.{settle-Balanced}
use aeon_backend.Tokens.Books.Shared.{Balanced-put, below_mono, lock_weight_nonneg, payouts_nonneg}
use aeon_backend.Base.Dict.{Dict, insert, lookup}
use aeon_backend.Base.Int.{+ℤ-zero, pos, ◌+ℤ◌, ◌<ℤ◌, ◌≤ℤ◌, ℤ}
use aeon_backend.Store.{LockStatus, LockedGame, Store, locked, row_of, unlocked, next_of}
use aeon_backend.Tokens.{
  is_locked, settle_row, settle_rows, unlock_amount, due_rows, is_due, settle_cap, settle_unlocks,
}

module _ (clock id : ℕ) (row : LockedGame) (s : Store) (b : Books s) where
  settled : LockedGame
  settled = record row { status = unlocked }

  pub settle_row-Books :
      lookup id s.locked_games ≡ some row
      → row.status ≡ locked
      → s.next_id + 1 < 2 ^ 64
      → Books (settle_row clock (id, row) s).1
  unfolding settle_row settled
  settle_row-Books held lock room = record {
    balanced = λ a. Balanced-put a row.account_id _ _ s.tokens _ _ (same a) (other a);
    locks_positive = All-insert _ id settled s.locked_games positive b.locks_positive;
    payouts_positive = b.payouts_positive;
    locks_distinct = Distinct-insert id settled s.locked_games b.locks_distinct;
    payouts_distinct = b.payouts_distinct;
    locks_below =
        All-insert _ id settled s.locked_games (omega (arith, known))
          (below_mono s.next_id _ s.locked_games (omega arith) b.locks_below);
    payouts_below = below_mono s.next_id _ s.withdrawals (omega arith) b.payouts_below;
  }
    where
      positive : pos 0 <ℤ row.amount
      positive = All-lookup _ id row s.locked_games b.locks_positive held

      known : id ≤ s.next_id
      known = All-lookup _ id row s.locked_games b.locks_below held

      shrunk :
          (a : ℕ)
          → sum_by (lock_weight a) (insert id settled s.locked_games) +ℤ lock_weight a row
            ≡ locks_of s a +ℤ lock_weight a settled
      shrunk a = sum_by-insert (lock_weight a) id settled row s.locked_games held

      same :
          (a : ℕ)
          → row.account_id ≡ a
          → Balanced
              (unlock_amount row.amount (row_of row.account_id s.tokens))
              (sum_by (lock_weight a) (insert id settled s.locked_games))
              (payouts_of s a)
      same a e =
          let w : lock_weight a row ≡ row.amount = ground arith in
          let z : lock_weight a settled ≡ pos 0 = ground arith in
          let le : lock_weight a row ≤ℤ locks_of s a =
            le-sum_by (lock_weight a) id row s.locked_games
              (lock_weight_nonneg a s.locked_games b.locks_positive) held in
          settle-Balanced (row_of row.account_id s.tokens) row.amount (locks_of s a) _
            (payouts_of s a) positive (subst (λ x. x ≤ℤ locks_of s a) w le) (payouts_nonneg s b a)
            (rw w at (rw z at (shrunk a)) ∙ +ℤ-zero (locks_of s a))
            (subst (λ x. Balanced (row_of x s.tokens) (locks_of s a) (payouts_of s a)) (sym e)
              (b.balanced a))

      other :
          (a : ℕ)
          → row.account_id ≢ a
          → Balanced
              (row_of a s.tokens)
              (sum_by (lock_weight a) (insert id settled s.locked_games))
              (payouts_of s a)
      other a n =
          let w : lock_weight a row ≡ pos 0 = ground arith in
          let z : lock_weight a settled ≡ pos 0 = ground arith in
          subst (λ l. Balanced (row_of a s.tokens) l (payouts_of s a))
            (sym (sym (+ℤ-zero _) ∙ (rw w at (rw z at (shrunk a))) ∙ +ℤ-zero (locks_of s a)))
            (b.balanced a)

-- What one settlement changes apart from the balances.
next_id-settle_row :
    (clock : ℕ) (e : ℕ × LockedGame) (s : Store) → (settle_row clock e s).1.next_id ≡ next_of s
unfolding settle_row
next_id-settle_row clock e s = refl

Holds-settle_row :
    (clock : ℕ) (e : ℕ × LockedGame) (es : Dict ℕ LockedGame) (s : Store)
    → Absent e.0 es
    → Holds s.locked_games es
    → Holds (settle_row clock e s).1.locked_games es
unfolding settle_row
Holds-settle_row clock e es s absent h = Holds-insert e.0 _ s.locked_games es absent h

locked_of : (x : LockStatus) → is_locked x ≡ true → x ≡ locked
locked_of locked e = refl
locked_of unlocked e = cc

pub settle_rows-Books :
    (clock : ℕ) (es : Dict ℕ LockedGame) (s : Store)
    → Books s
    → Holds s.locked_games es
    → Distinct es
    → All (λ e. is_locked e.1.status ≡ true) es
    → s.next_id + length es < 2 ^ 64
    → Books (settle_rows clock es s).1
unfolding settle_rows
settle_rows-Books clock [] s b h d l room = b
settle_rows-Books clock ((id, row) ∷ es) s b h d l room =
    settle_rows-Books clock es (settle_row clock (id, row) s).1
      (settle_row-Books clock id row s b h.0 (locked_of row.status l.0) (omega arith))
      (Holds-settle_row clock (id, row) es s d.0 h.1) d.1 l.1
      (omega (arith, next_id-settle_row clock (id, row) s))

-- The rows that a call settles are rows of the map, each once, and due.
module _ (now : ℕ) (limit : ℤ) (visit : Dict ℕ LockedGame → Dict ℕ LockedGame) (s : Store) where
  due_rows-Holds :
      Distinct s.locked_games
      → Permᴰ s.locked_games (visit s.locked_games)
      → Holds s.locked_games (due_rows now limit visit s)
  unfolding due_rows
  due_rows-Holds d p =
      All-take _ _ _ (
        All-sort_by _ _ _
          (All-select _ (is_due now) _ (All-perm _ p (Holds-self s.locked_games d))))

  due_rows-Distinct :
      Distinct s.locked_games
      → Permᴰ s.locked_games (visit s.locked_games)
      → Distinct (due_rows now limit visit s)
  unfolding due_rows
  due_rows-Distinct d p =
      Distinct-take _ _ (Distinct-sort_by _ _ (Distinct-select (is_due now) _ (Distinct-perm p d)))

  pub due_rows-is_due : All (λ e. is_due now e ≡ true) (due_rows now limit visit s)
  unfolding due_rows
  due_rows-is_due =
      All-take due _ _ (All-sort_by due _ _ (select-All (is_due now) (visit s.locked_games)))
    where
      due : ℕ × LockedGame → Type 0
      due e = is_due now e ≡ true

  pub length-due_rows : length (due_rows now limit visit s) ≤ settle_cap limit
  unfolding due_rows
  length-due_rows = length-take (settle_cap limit) _

-- `SettleUnlocks` keeps the books: for every order in which Go visits the map, and as long as
-- there are identifiers left for the ledger entries, of which there is one for each row.
pub settle_unlocks-Books :
    (now : ℕ) (limit : ℤ) (visit : Dict ℕ LockedGame → Dict ℕ LockedGame) (clock : ℕ) (s : Store)
    → Permᴰ s.locked_games (visit s.locked_games)
    → Books s
    → s.next_id + settle_cap limit < 2 ^ 64
    → Books (settle_unlocks now limit visit clock s).1
unfolding settle_unlocks
settle_unlocks-Books now limit visit clock s p b room =
    settle_rows-Books clock (due_rows now limit visit s) s b
      (due_rows-Holds now limit visit s b.locks_distinct p)
      (due_rows-Distinct now limit visit s b.locks_distinct p)
      (All-map _ _ (λ e due. ground arith) _ (due_rows-is_due now limit visit s))
      (omega (arith, length-due_rows now limit visit s))
