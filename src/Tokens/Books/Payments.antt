-- ===== src/Tokens/Books/Payments.antt =====
-- `ProcessAutoWithdrawals` keeps the books.
use aeon_backend.Base.{
  All, Bool-cases, Permᴰ, String, [], arith, inl, inr, leb, length, refl, some, sym, true, ℕ, ◌+◌,
  ◌<◌, ◌^◌, ◌∷◌, ◌≡◌, ◌≤◌, nat_key,
}
use aeon_backend.Store.{
  Store, Withdrawal, WithdrawalStatus, confirmed, manual_review, queued, rejected, submitted,
}
use aeon_backend.Base.Rows.{
  Absent, All-perm, All-select, All-sort_by, Distinct, Distinct-perm, Distinct-select,
  Distinct-sort_by, Holds, Holds-insert, Holds-self, select-All,
}
use aeon_backend.Tokens.Books.{Books, is_open}
use aeon_backend.Tokens.{
  Limits, Run, Verdict, apply_verdict, delayed, is_queued, judge, over_global_daily, over_single,
  over_user_daily, pay_rows, pays, process_auto_withdrawals, queued_rows,
}
use aeon_backend.Tokens.Books.Withdraws.{restate-Books}
use aeon_backend.Base.Int.{ℤ}
use aeon_backend.Base.Dict.{Dict, lookup}

module _ (now : ℕ) (stamp : String) (clock : ℕ) where
  -- A verdict changes the status of an open row, and moves no money.
  apply_verdict-Books :
      (id : ℕ) (row : Withdrawal) (r : Run) (v : Verdict)
      → Books r.store
      → lookup id r.store.withdrawals ≡ some row
      → is_open row.status ≡ true
      → r.store.next_id + 1 < 2 ^ 64
      → Books (apply_verdict now stamp clock (id, row) v r).store
  unfolding apply_verdict
  apply_verdict-Books id row r over_single b held o room =
      restate-Books r.store b id row _ held refl refl (sym o) _ _ _ (omega arith)
  apply_verdict-Books id row r over_user_daily b held o room =
      restate-Books r.store b id row _ held refl refl (sym o) _ _ _ (omega arith)
  apply_verdict-Books id row r delayed b held o room =
      restate-Books r.store b id row _ held refl refl (sym o) _ _ _ (omega arith)
  apply_verdict-Books id row r over_global_daily b held o room =
      restate-Books r.store b id row _ held refl refl (sym o) _ _ _ (omega arith)
  apply_verdict-Books id row r pays b held o room =
      restate-Books r.store b id row _ held refl refl (sym o) _ _ _ (omega arith)

  pub apply_verdict-Holds :
      (e : ℕ × Withdrawal) (es : Dict ℕ Withdrawal) (r : Run) (v : Verdict)
      → Absent e.0 es
      → Holds r.store.withdrawals es
      → Holds (apply_verdict now stamp clock e v r).store.withdrawals es
  unfolding apply_verdict
  apply_verdict-Holds e es r over_single a h = Holds-insert e.0 _ _ es a h
  apply_verdict-Holds e es r over_user_daily a h = Holds-insert e.0 _ _ es a h
  apply_verdict-Holds e es r delayed a h = Holds-insert e.0 _ _ es a h
  apply_verdict-Holds e es r over_global_daily a h = Holds-insert e.0 _ _ es a h
  apply_verdict-Holds e es r pays a h = Holds-insert e.0 _ _ es a h

  -- At most one identifier, for a ledger entry.
  apply_verdict_next :
      (e : ℕ × Withdrawal) (r : Run) (v : Verdict)
      → r.store.next_id + 1 < 2 ^ 64
      → (apply_verdict now stamp clock e v r).store.next_id ≤ r.store.next_id + 1
  unfolding apply_verdict
  apply_verdict_next e r over_single h = omega arith
  apply_verdict_next e r over_user_daily h = omega arith
  apply_verdict_next e r delayed h = omega arith
  apply_verdict_next e r over_global_daily h = omega arith
  apply_verdict_next e r pays h = omega arith

  pub pay_rows-Books :
      (l : Limits) (limit : ℕ) (es : Dict ℕ Withdrawal) (r : Run)
      → Books r.store
      → Holds r.store.withdrawals es
      → Distinct es
      → All (λ e. is_queued e.1.status ≡ true) es
      → r.store.next_id + length es < 2 ^ 64
      → Books (pay_rows l limit now stamp clock es r).store
  unfolding pay_rows
  pay_rows-Books l limit [] r b h d q room = b
  pay_rows-Books l limit ((id, row) ∷ es) r b h d q room =
      elim (Bool-cases (leb limit (length r.out))) [
        | inl full ↦ rw full b
        | inr more ↦ rw more (
            pay_rows-Books l limit es _
              (apply_verdict-Books id row r v b h.0 (open_of row.status q.0) (omega arith))
              (apply_verdict-Holds (id, row) es r v d.0 h.1) d.1 q.1
              (omega (arith, apply_verdict_next (id, row) r v (omega arith))))
      ]
    where
      v : Verdict
      v = judge l r.usage row

      open_of : (x : WithdrawalStatus) → is_queued x ≡ true → is_open x ≡ true
      open_of queued e = refl
      open_of manual_review e = cc
      open_of submitted e = cc
      open_of confirmed e = cc
      open_of rejected e = cc

module _ (visit : Dict ℕ Withdrawal → Dict ℕ Withdrawal) (s : Store) where
  pub queued_rows-Holds :
      Distinct s.withdrawals
      → Permᴰ s.withdrawals (visit s.withdrawals)
      → Holds s.withdrawals (queued_rows visit s)
  unfolding queued_rows
  queued_rows-Holds d p =
      All-sort_by _ _ _ (All-select _ _ _ (All-perm _ p (Holds-self s.withdrawals d)))

  pub queued_rows-Distinct :
      Distinct s.withdrawals
      → Permᴰ s.withdrawals (visit s.withdrawals)
      → Distinct (queued_rows visit s)
  unfolding queued_rows
  queued_rows-Distinct d p = Distinct-sort_by _ _ (Distinct-select _ _ (Distinct-perm p d))

  pub queued_rows-is_queued : All (λ e. is_queued e.1.status ≡ true) (queued_rows visit s)
  unfolding queued_rows
  queued_rows-is_queued =
      All-sort_by waits _ _ (select-All (λ e. is_queued e.1.status) (visit s.withdrawals))
    where
      waits : ℕ × Withdrawal → Type 0
      waits e = is_queued e.1.status ≡ true

-- A run of the worker keeps the books, for every order in which Go visits the map, as long as
-- there is an identifier left for each queued row.
pub process_auto_withdrawals-Books :
    (now : ℕ) (l : Limits) (limit : ℤ) (visit₁ visit₂ : Dict ℕ Withdrawal → Dict ℕ Withdrawal)
    (stamp : String) (clock : ℕ) (s : Store)
    → Permᴰ s.withdrawals (visit₂ s.withdrawals)
    → Books s
    → s.next_id + length (queued_rows visit₂ s) < 2 ^ 64
    → Books (process_auto_withdrawals now l limit visit₁ visit₂ stamp clock s).1
unfolding process_auto_withdrawals
process_auto_withdrawals-Books now l limit visit₁ visit₂ stamp clock s p b room =
    pay_rows-Books now stamp clock l _ (queued_rows visit₂ s) _ b
      (queued_rows-Holds visit₂ s b.payouts_distinct p)
      (queued_rows-Distinct visit₂ s b.payouts_distinct p) (queued_rows-is_queued visit₂ s) room
