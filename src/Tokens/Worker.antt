-- ===== src/Tokens/Worker.antt =====
-- `ProcessAutoWithdrawals`, with `sameDay` and `sameHour`, of internal/platform/store/store.go.
use Prim.Native.String.{◌++◌ as text_append}
use aeon_backend.Base.{
  ℕ, ◌/◌, ◌%◌, String, List, [], ◌∷◌, ◌++◌, Bool, true, false, ◌&&◌, none, some, leb, ◌==◌,
  if◌then◌else◌, length, sort_by, nat_key, text_key,
}
use aeon_backend.Base.Int.{ℤ, pos, pos_part, add64, leb_ℤ, ltb_ℤ}
use aeon_backend.Base.Dict.{Dict, lookup, insert}
use aeon_backend.Base.Rows.{select}
use aeon_backend.Store.{
  Store, Withdrawal, WithdrawalStatus, queued, manual_review, submitted, confirmed, rejected,
  add_ledger,
}

-- Days and hours of a time in UTC: Go's zero time is a midnight.
abbrev pub day_of : ℕ → ℕ
day_of t = t / 86_400_000_000_000

abbrev pub hour_of : ℕ → ℕ
hour_of t = t / 3_600_000_000_000 % 24

unfoldable pub same_day : ℕ → ℕ → Bool
same_day a b = if a == 0 then false else day_of a == day_of b

unfoldable pub same_hour : ℕ → ℕ → Bool
same_hour a b = if a == 0 then false else day_of a == day_of b && hour_of a == hour_of b

-- What the calls so far have paid out: `userDaily`, `globalHourly` and `globalDaily`.
pub record Usage : Type 0 where
  pub user_daily : Dict ℕ ℤ
  pub global_hourly : ℤ
  pub global_daily : ℤ

abbrev pub user_usage : ℕ → Usage → ℤ
user_usage a u = elim (lookup a u.user_daily) [ none ↦ pos 0 | some n ↦ n ]

abbrev pub add_daily : ℕ → ℤ → Usage → Usage
add_daily a n u = record u {
  user_daily = insert a (add64 (user_usage a u) n) u.user_daily;
  global_daily = add64 u.global_daily n;
}

abbrev pub add_hourly : ℤ → Usage → Usage
add_hourly n u = record u { global_hourly = add64 u.global_hourly n }

abbrev pub is_paid : WithdrawalStatus → Bool
is_paid submitted = true
is_paid confirmed = true
is_paid queued = false
is_paid manual_review = false
is_paid rejected = false

abbrev pub is_queued : WithdrawalStatus → Bool
is_queued queued = true
is_queued manual_review = false
is_queued submitted = false
is_queued confirmed = false
is_queued rejected = false

-- The body of the first loop.
unfoldable pub count_row : ℕ → Withdrawal → Usage → Usage
count_row now row u =
    if is_paid row.status
    then (let u₁ =
          if same_day row.processed_at now then add_daily row.account_id row.amount u else u in
        if same_hour row.processed_at now then add_hourly row.amount u₁ else u₁)
    else u

unfoldable pub count_rows : ℕ → Dict ℕ Withdrawal → Usage → Usage
count_rows now [] u = u
count_rows now (e ∷ es) u = count_rows now es (count_row now e.1 u)

abbrev pub no_usage : Usage
no_usage = record { user_daily = []; global_hourly = pos 0; global_daily = pos 0 }

pub record Limits : Type 0 where
  pub single_max : ℤ
  pub user_daily_max : ℤ
  pub global_hourly_max : ℤ
  pub global_daily_max : ℤ

-- The cases of the `switch`.
pub data Verdict : Type 0 where
  over_single over_user_daily delayed over_global_daily pays : Verdict

unfoldable pub judge : Limits → Usage → Withdrawal → Verdict
judge l u row =
    if ltb_ℤ l.single_max row.amount
    then over_single
    else if ltb_ℤ l.user_daily_max (add64 (user_usage row.account_id u) row.amount)
    then over_user_daily
    else if ltb_ℤ l.global_hourly_max (add64 u.global_hourly row.amount)
    then delayed
    else if ltb_ℤ l.global_daily_max (add64 u.global_daily row.amount)
    then over_global_daily
    else pays

pub record Run : Type 0 where
  pub usage : Usage
  pub out : List Withdrawal
  pub store : Store

-- The row once it is paid; `stamp` is the formatted time in the mock transaction hash.
abbrev pub paid_row : ℕ → String → Withdrawal → Withdrawal
paid_row now stamp row = record row {
  status = submitted;
  tx_hash = text_append "mock_tx_" stamp;
  processed_at = now;
}

-- Sends the row to manual review, or pays it; a delayed row is no part of what is returned.
unfoldable pub apply_verdict : ℕ → String → ℕ → ℕ × Withdrawal → Verdict → Run → Run
unfolding add_ledger
apply_verdict now stamp clock e over_single r =
    let row : Withdrawal = record (e.1) {
      status = manual_review;
      reason = "single limit exceeded";
    } in
    record r {
      out = r.out ++ row ∷ [];
      store = record (r.store) { withdrawals = insert e.0 row r.store.withdrawals };
    }
apply_verdict now stamp clock e over_user_daily r =
    let row : Withdrawal = record (e.1) {
      status = manual_review;
      reason = "user daily limit exceeded";
    } in
    record r {
      out = r.out ++ row ∷ [];
      store = record (r.store) { withdrawals = insert e.0 row r.store.withdrawals };
    }
apply_verdict now stamp clock e delayed r =
    let row : Withdrawal = record (e.1) {
      status = queued;
      reason = "global hourly limit delayed";
    } in
    record r { store = record (r.store) { withdrawals = insert e.0 row r.store.withdrawals } }
apply_verdict now stamp clock e over_global_daily r =
    let row : Withdrawal = record (e.1) {
      status = manual_review;
      reason = "global daily limit exceeded";
    } in
    record r {
      out = r.out ++ row ∷ [];
      store = record (r.store) { withdrawals = insert e.0 row r.store.withdrawals };
    }
apply_verdict now stamp clock e pays r =
    let row = paid_row now stamp e.1 in
    let s : Store = record (r.store) { withdrawals = insert e.0 row r.store.withdrawals } in
    record {
      usage = add_hourly row.amount (add_daily row.account_id row.amount r.usage);
      out = r.out ++ row ∷ [];
      store =
          add_ledger row.account_id "WITHDRAWAL_SUBMITTED" row.amount row.tx_hash "auto" clock s;
    }

-- The second loop: it stops once `limit` rows are out.
unfoldable pub pay_rows : Limits → ℕ → ℕ → String → ℕ → Dict ℕ Withdrawal → Run → Run
pay_rows l limit now stamp clock [] r = r
pay_rows l limit now stamp clock (e ∷ es) r =
    let rest =
      pay_rows l limit now stamp clock es
        (apply_verdict now stamp clock e (judge l r.usage e.1) r) in
    if leb limit (length r.out) then r else rest

unfoldable pub queued_rows : (Dict ℕ Withdrawal → Dict ℕ Withdrawal) → Store → Dict ℕ Withdrawal
unfolding select sort_by
queued_rows visit s =
    sort_by (λ e. e.1.created_at) (select (λ e. is_queued e.1.status) (visit s.withdrawals))

-- `visit₁` and `visit₂` are the orders of the two loops over the map.
unfoldable pub process_auto_withdrawals :
    ℕ
    → Limits
    → ℤ
    → (Dict ℕ Withdrawal → Dict ℕ Withdrawal)
    → (Dict ℕ Withdrawal → Dict ℕ Withdrawal)
    → String
    → ℕ
    → Store
    → List Withdrawal × Store
process_auto_withdrawals now l limit visit₁ visit₂ stamp clock s =
    let usage = count_rows now (visit₁ s.withdrawals) no_usage in
    let cap : ℕ = if leb_ℤ limit (pos 0) then 20 else pos_part limit in
    let r =
      pay_rows l cap now stamp clock (queued_rows visit₂ s)
        (record { usage = usage; out = []; store = s }) in
    (r.out, r.store)
