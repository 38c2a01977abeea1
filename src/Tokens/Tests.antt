-- ===== src/Tokens/Tests.antt =====
-- A day of account 7: a grant, its unlock, a withdrawal, and the worker's run.
use aeon_backend.Base.{[], arith, false, map, refl, true, ◌∷◌, ◌≡◌, ◌^◌, ◌⊎◌}
use mathlib.Core.List.Permᴰ
use aeon_backend.Tokens.{
  Limits, apply_verdict, count_rows, create_withdrawal, due_rows, grant_locked, is_paid, judge,
  pay_rows, process_auto_withdrawals, queued_rows, settle_row, settle_rows, settle_unlocks,
  count_row, decide, review_withdrawal,
}
use aeon_backend.Base.Int.{add64, pos, sub64, ◌+ℤ◌, ◌≤ℤ◌, int_laws, ◌<ℤ◌}
use aeon_backend.Store.{Store, new, row_of}
use aeon_backend.Tokens.History.{
  Reach, grants, here, next_step, Reach-conserves, requests, runs, settles, Reach-Books,
}
use aeon_backend.Tokens.Books.{locks_of, payouts_of, Books}
use aeon_backend.Tokens.Quota.Bounds.{
  daily_cap, hourly_cap, in_account_day, in_day, in_hour, paid_total, user_daily_cap,
}
use aeon_backend.Tokens.Quota.Measure.{amount_weight}
use aeon_backend.Base.Rows.{sum_by}
use aeon_backend.Tokens.Books.Payments.{process_auto_withdrawals-Books}
use aeon_backend.Tokens.Books.Reviews.{review_withdrawal-Books}
use aeon_backend.Tokens.Books.Withdraws.{create_withdrawal-Books}

-- 100 AEB are granted at time 10, to unlock at 50; at 60 they unlock, and at 70 account 7 asks for
-- 30 of them; at 80 the worker runs.
abbrev granted : Store
granted = (grant_locked 7 (pos 100) "dungeon" "run-1" 50 10 new).1

abbrev unlocked_store : Store
unlocked_store = (settle_unlocks 60 (pos 0) (λ m. m) 60 granted).1

abbrev asked : Store
asked = (create_withdrawal 7 (pos 30) " wallet " false 70 unlocked_store).1

abbrev limits : Limits
limits = record {
  single_max = pos 50;
  user_daily_max = pos 60;
  global_hourly_max = pos 500;
  global_daily_max = pos 1000;
}

abbrev paid_store : Store
paid_store = (process_auto_withdrawals 80 limits (pos 0) (λ m. m) (λ m. m) "x" 80 asked).1

paid_balances :
    let t = row_of 7 paid_store.tokens in
    (t.token_balance ≡ pos 100) × (t.withdrawable_balance ≡ pos 70) × (t.locked_balance ≡ pos 0)
unfolding grant_locked settle_unlocks settle_rows settle_row due_rows create_withdrawal
    process_auto_withdrawals pay_rows queued_rows judge apply_verdict count_rows count_row row_of
    new add64 sub64
paid_balances = (refl, refl, refl)

paid_rows : map (λ e. is_paid e.1.status) paid_store.withdrawals ≡ true ∷ []
unfolding grant_locked settle_unlocks settle_rows settle_row due_rows create_withdrawal
    process_auto_withdrawals pay_rows queued_rows judge apply_verdict count_rows count_row row_of
    new add64 sub64
paid_rows = refl

asked_history : Reach new asked
unfolding grant_locked settle_unlocks settle_rows settle_row due_rows create_withdrawal queued_rows
    new row_of
asked_history =
    next_step
      (next_step
        (next_step here (grants 7 (pos 100) "dungeon" "run-1" 50 10 (omega arith) (omega int_laws)))
        (settles 60 (pos 0) (λ m. m) 60 (Permᴰ.refl _) (omega arith)))
      (requests 7 (pos 30) " wallet " false 70 (omega arith))

history : Reach new paid_store
unfolding grant_locked settle_unlocks settle_rows settle_row due_rows create_withdrawal queued_rows
    new row_of add64
history =
    next_step asked_history
      (runs 80 limits (pos 0) (λ m. m) (λ m. m) "x" 80 (Permᴰ.refl _) (omega arith))

Reach-conserves_example :
    let t = row_of 7 paid_store.tokens in
    (t.token_balance ≡ t.withdrawable_balance +ℤ locks_of paid_store 7 +ℤ payouts_of paid_store 7)
    × (pos 0 ≤ℤ t.withdrawable_balance)
Reach-conserves_example = Reach-conserves paid_store history 7

asked_sum : sum_by amount_weight asked.withdrawals <ℤ pos (2 ^ 63)
unfolding grant_locked settle_unlocks settle_rows settle_row due_rows create_withdrawal queued_rows
    new row_of add64 sub64
asked_sum = omega int_laws

daily_cap_example :
    (paid_total (in_day 80) paid_store ≡ paid_total (in_day 80) asked)
    ⊎ (paid_total (in_day 80) paid_store ≤ℤ pos 1000)
daily_cap_example =
    daily_cap 80 limits (pos 0) (λ m. m) (λ m. m) "x" 80 asked (omega arith)
      (Reach-Books asked_history) asked_sum (Permᴰ.refl _) (Permᴰ.refl _)

hourly_cap_example :
    (paid_total (in_hour 80) paid_store ≡ paid_total (in_hour 80) asked)
    ⊎ (paid_total (in_hour 80) paid_store ≤ℤ pos 500)
hourly_cap_example =
    hourly_cap 80 limits (pos 0) (λ m. m) (λ m. m) "x" 80 asked (omega arith)
      (Reach-Books asked_history) asked_sum (Permᴰ.refl _) (Permᴰ.refl _)

user_daily_cap_example :
    (paid_total (in_account_day 7 80) paid_store ≡ paid_total (in_account_day 7 80) asked)
    ⊎ (paid_total (in_account_day 7 80) paid_store ≤ℤ pos 60)
user_daily_cap_example =
    user_daily_cap 7 80 limits (pos 0) (λ m. m) (λ m. m) "x" 80 asked (omega arith)
      (Reach-Books asked_history) asked_sum (Permᴰ.refl _) (Permᴰ.refl _)

granted_history : Reach new granted
unfolding new row_of
granted_history =
    next_step here (grants 7 (pos 100) "dungeon" "run-1" 50 10 (omega arith) (omega int_laws))

unlocked_history : Reach new unlocked_store
unfolding grant_locked new
unlocked_history =
    next_step granted_history (settles 60 (pos 0) (λ m. m) 60 (Permᴰ.refl _) (omega arith))

create_withdrawal-Books_example : Books asked
unfolding grant_locked settle_unlocks settle_rows settle_row due_rows new row_of
create_withdrawal-Books_example =
    create_withdrawal-Books 7 (pos 30) " wallet " false 70 unlocked_store
      (Reach-Books unlocked_history) (omega arith)

process_auto_withdrawals-Books_example : Books paid_store
unfolding grant_locked settle_unlocks settle_rows settle_row due_rows create_withdrawal queued_rows
    new row_of add64
process_auto_withdrawals-Books_example =
    process_auto_withdrawals-Books 80 limits (pos 0) (λ m. m) (λ m. m) "x" 80 asked (Permᴰ.refl _)
      (Reach-Books asked_history) (omega arith)

-- Account 7 asks for a manual review at 70, and is rejected at 90: the amount comes back.
abbrev manual_store : Store
manual_store = (create_withdrawal 7 (pos 30) "w" true 70 unlocked_store).1

abbrev rejected_store : Store
rejected_store = (review_withdrawal 1004 false "admin" "no" 90 manual_store).1

rejected_balances :
    let t = row_of 7 rejected_store.tokens in
    (t.token_balance ≡ pos 100) × (t.withdrawable_balance ≡ pos 100)
unfolding grant_locked settle_unlocks settle_rows settle_row due_rows create_withdrawal row_of
    review_withdrawal decide new add64 sub64
rejected_balances = (refl, refl)

review_withdrawal-Books_example : Books rejected_store
unfolding grant_locked settle_unlocks settle_rows settle_row due_rows create_withdrawal new row_of
    add64
review_withdrawal-Books_example =
    review_withdrawal-Books 1004 false "admin" "no" 90 manual_store
      (create_withdrawal-Books 7 (pos 30) "w" true 70 unlocked_store (Reach-Books unlocked_history)
        (omega arith))
      (omega arith)
