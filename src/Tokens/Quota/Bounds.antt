-- ===== src/Tokens/Quota/Bounds.antt =====
-- The limits of a run of `ProcessAutoWithdrawals`, stated on the map before and after it.
use aeon_backend.Base.{
  Bool, Permᴰ, String, arith, if◌then◌else◌, sym, true, ℕ, ◌&&◌, ◌==◌, ◌^◌, ◌∙◌, ◌≡◌, ◌⊎◌, nat_key,
  refl, ◌<◌,
}
use aeon_backend.Base.Int.{add64, int_laws, pos, zero-+ℤ, ℤ, ◌<ℤ◌, ◌≤ℤ◌}
use aeon_backend.Tokens.Books.Payments.{
  queued_rows-Distinct, queued_rows-Holds, queued_rows-is_queued,
}
use aeon_backend.Tokens.Quota.Measure.{amount_weight, count_rows-eq-sum, paid_weight}
use aeon_backend.Tokens.{
  Limits, Usage, add_daily, add_hourly, count_row, count_rows, is_paid, judge, no_usage, paid_row,
  pays, process_auto_withdrawals, queued_rows, same_day, same_hour, user_usage,
}
use aeon_backend.Base.Rows.{All-perm, sum_by, sum_by-perm}
use aeon_backend.Store.{Store, Withdrawal}
use aeon_backend.Tokens.Books.{Books}
use aeon_backend.Base.Dict.{Dict, lookup-insert}
use aeon_backend.Tokens.Quota.Paying.{pay_rows-Within}

-- What is paid out, or confirmed, on the day (in the hour) of `now`: to all, or to one account.
abbrev pub in_day : ℕ → Withdrawal → Bool
in_day now r = same_day r.processed_at now

abbrev pub in_hour : ℕ → Withdrawal → Bool
in_hour now r = same_hour r.processed_at now

abbrev pub in_account_day : ℕ → ℕ → Withdrawal → Bool
in_account_day a now r = r.account_id == a && same_day r.processed_at now

pub paid_total : (Withdrawal → Bool) → Store → ℤ
paid_total t s = sum_by (paid_weight t) s.withdrawals

-- A run starts from totals that agree with the map, and the second loop keeps them so.
module _ (now : ℕ) (l : Limits) (stamp : String) (clock : ℕ) (f : Usage → ℤ) (t : Withdrawal → Bool)
    (cap : ℤ)
    (counts : (row : Withdrawal) (u : Usage)
      → f (count_row now row u)
        ≡ (if is_paid row.status && t row then add64 (f u) row.amount else f u))
    (pays_use : (row : Withdrawal) (u : Usage)
      → f (add_hourly row.amount (add_daily row.account_id row.amount u))
        ≡ (if t (paid_row now stamp row) then add64 (f u) row.amount else f u))
    (judged : (row : Withdrawal) (u : Usage)
      → judge l u row ≡ pays
      → t (paid_row now stamp row) ≡ true
      → add64 (f u) row.amount ≤ℤ cap)
    (starts : f no_usage ≡ pos 0) where
  run-Within :
      (limit : ℤ) (visit₁ visit₂ : Dict ℕ Withdrawal → Dict ℕ Withdrawal) (s : Store)
      → Books s
      → sum_by amount_weight s.withdrawals <ℤ pos (2 ^ 63)
      → Permᴰ s.withdrawals (visit₁ s.withdrawals)
      → Permᴰ s.withdrawals (visit₂ s.withdrawals)
      → let s' = (process_auto_withdrawals now l limit visit₁ visit₂ stamp clock s).1 in
        (paid_total t s' ≡ paid_total t s) ⊎ (paid_total t s' ≤ℤ cap)
  unfolding process_auto_withdrawals paid_total
  run-Within limit visit₁ visit₂ s b fits p₁ p₂ =
      pay_rows-Within l now stamp clock f t cap pays_use judged _ (queued_rows visit₂ s) _
        (record { counted = start; positive = b.payouts_positive; fits = fits })
        (queued_rows-Holds visit₂ s b.payouts_distinct p₂)
        (queued_rows-Distinct visit₂ s b.payouts_distinct p₂) (queued_rows-is_queued visit₂ s)
    where
      same_total : sum_by amount_weight s.withdrawals ≡ sum_by amount_weight (visit₁ s.withdrawals)
      same_total = sum_by-perm amount_weight p₁

      start :
          f (count_rows now (visit₁ s.withdrawals) no_usage) ≡ sum_by (paid_weight t) s.withdrawals
      start =
          count_rows-eq-sum now f t counts (visit₁ s.withdrawals) no_usage
            (All-perm _ p₁ b.payouts_positive) (rw starts (omega arith))
            (rw (starts, ← same_total) (omega (int_laws, fits)))
          ∙ rw starts (zero-+ℤ (sum_by (paid_weight t) (visit₁ s.withdrawals)))
          ∙ sym (sum_by-perm (paid_weight t) p₁)

same_day_self : (now : ℕ) → 0 < now → same_day now now ≡ true
unfolding same_day
same_day_self now h = ground arith

same_hour_self : (now : ℕ) → 0 < now → same_hour now now ≡ true
unfolding same_hour
same_hour_self now h = ground arith

-- The payouts of the day: a run of the worker leaves their sum over all accounts as it was, or within
-- the daily limit, where the time is not Go's zero time, the books are in order, the amounts of all
-- withdrawals add up to an int64, and each loop visits every row once.
pub daily_cap :
    (now : ℕ) (l : Limits) (limit : ℤ) (visit₁ visit₂ : Dict ℕ Withdrawal → Dict ℕ Withdrawal)
    (stamp : String) (clock : ℕ) (s : Store)
    → 0 < now
    → Books s
    → sum_by amount_weight s.withdrawals <ℤ pos (2 ^ 63)
    → Permᴰ s.withdrawals (visit₁ s.withdrawals)
    → Permᴰ s.withdrawals (visit₂ s.withdrawals)
    → let s' = (process_auto_withdrawals now l limit visit₁ visit₂ stamp clock s).1 in
      (paid_total (in_day now) s' ≡ paid_total (in_day now) s)
      ⊎ (paid_total (in_day now) s' ≤ℤ l.global_daily_max)
daily_cap now l limit visit₁ visit₂ stamp clock s late b fits p₁ p₂ =
    run-Within now l stamp clock (λ u. u.global_daily) (in_day now) l.global_daily_max counts
      (λ row u. rw (same_day_self now late)) (λ row u e _. judged row u e) refl limit visit₁ visit₂
      s b fits p₁ p₂
  where
    counts :
        (row : Withdrawal) (u : Usage)
        → (count_row now row u).global_daily ≡ (
            if is_paid row.status && in_day now row
            then add64 u.global_daily row.amount
            else u.global_daily)
    counts row u = unfold count_row in ground arith

    judged :
        (row : Withdrawal) (u : Usage)
        → judge l u row ≡ pays
        → add64 u.global_daily row.amount ≤ℤ l.global_daily_max
    judged row u e = unfold judge in ground arith

-- The payouts of the hour: a run leaves their sum over all accounts as it was, or within the hourly
-- limit, under the conditions of the daily one: the time is not Go's zero time, the books are in
-- order, the amounts add up to an int64, and each loop visits every row once.
pub hourly_cap :
    (now : ℕ) (l : Limits) (limit : ℤ) (visit₁ visit₂ : Dict ℕ Withdrawal → Dict ℕ Withdrawal)
    (stamp : String) (clock : ℕ) (s : Store)
    → 0 < now
    → Books s
    → sum_by amount_weight s.withdrawals <ℤ pos (2 ^ 63)
    → Permᴰ s.withdrawals (visit₁ s.withdrawals)
    → Permᴰ s.withdrawals (visit₂ s.withdrawals)
    → let s' = (process_auto_withdrawals now l limit visit₁ visit₂ stamp clock s).1 in
      (paid_total (in_hour now) s' ≡ paid_total (in_hour now) s)
      ⊎ (paid_total (in_hour now) s' ≤ℤ l.global_hourly_max)
hourly_cap now l limit visit₁ visit₂ stamp clock s late b fits p₁ p₂ =
    run-Within now l stamp clock (λ u. u.global_hourly) (in_hour now) l.global_hourly_max counts
      (λ row u. rw (same_hour_self now late)) (λ row u e _. judged row u e) refl limit visit₁ visit₂
      s b fits p₁ p₂
  where
    counts :
        (row : Withdrawal) (u : Usage)
        → (count_row now row u).global_hourly ≡ (
            if is_paid row.status && in_hour now row
            then add64 u.global_hourly row.amount
            else u.global_hourly)
    counts row u = unfold count_row in ground arith

    judged :
        (row : Withdrawal) (u : Usage)
        → judge l u row ≡ pays
        → add64 u.global_hourly row.amount ≤ℤ l.global_hourly_max
    judged row u e = unfold judge in ground arith

-- The payouts of the day to one account: a run leaves their sum as it was, or within the limit for
-- one account, under the same conditions.
pub user_daily_cap :
    (a now : ℕ) (l : Limits) (limit : ℤ) (visit₁ visit₂ : Dict ℕ Withdrawal → Dict ℕ Withdrawal)
    (stamp : String) (clock : ℕ) (s : Store)
    → 0 < now
    → Books s
    → sum_by amount_weight s.withdrawals <ℤ pos (2 ^ 63)
    → Permᴰ s.withdrawals (visit₁ s.withdrawals)
    → Permᴰ s.withdrawals (visit₂ s.withdrawals)
    → let s' = (process_auto_withdrawals now l limit visit₁ visit₂ stamp clock s).1 in
      (paid_total (in_account_day a now) s' ≡ paid_total (in_account_day a now) s)
      ⊎ (paid_total (in_account_day a now) s' ≤ℤ l.user_daily_max)
user_daily_cap a now l limit visit₁ visit₂ stamp clock s late b fits p₁ p₂ =
    run-Within now l stamp clock (user_usage a) (in_account_day a now) l.user_daily_max counts uses
      judged refl limit visit₁ visit₂ s b fits p₁ p₂
  where
    uses :
        (row : Withdrawal) (u : Usage)
        → user_usage a (add_hourly row.amount (add_daily row.account_id row.amount u)) ≡ (
            if in_account_day a now (paid_row now stamp row)
            then add64 (user_usage a u) row.amount
            else user_usage a u)
    uses row u = rw (same_day_self now late) (
        ground (
          arith,
          lookup-insert a row.account_id (add64 (user_usage row.account_id u) row.amount)
              u.user_daily,
        ))

    counts :
        (row : Withdrawal) (u : Usage)
        → user_usage a (count_row now row u) ≡ (
            if is_paid row.status && in_account_day a now row
            then add64 (user_usage a u) row.amount
            else user_usage a u)
    counts row u =
        unfold count_row in
        ground (
          arith,
          lookup-insert a row.account_id (add64 (user_usage row.account_id u) row.amount)
              u.user_daily,
        )

    judged :
        (row : Withdrawal) (u : Usage)
        → judge l u row ≡ pays
        → in_account_day a now (paid_row now stamp row) ≡ true
        → add64 (user_usage a u) row.amount ≤ℤ l.user_daily_max
    judged row u e own = unfold judge in ground arith
