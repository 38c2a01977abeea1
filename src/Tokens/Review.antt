-- ===== src/Tokens/Review.antt =====
-- `ReviewWithdrawal` of internal/platform/store/store.go.
use Prim.Native.String.{◌++◌ as text_append}
use aeon_backend.Base.{
  ℕ, String, [], ◌∷◌, ◌++◌, Bool, true, false, none, some, if◌then◌else◌, Result, ok, err, Error,
  nat_key, text_key,
}
use aeon_backend.Base.Int.{ℤ, add64}
use aeon_backend.Base.Dict.{lookup, insert}
use aeon_backend.Store.{
  Store, AccountToken, Withdrawal, WithdrawalStatus, queued, manual_review, submitted, confirmed,
  rejected, AuditEntry, next_of, ensure_token, put_token,
}
use aeon_backend.Tokens.Reads.{token}

abbrev pub refund : ℤ → AccountToken → AccountToken
refund n t = record t { withdrawable_balance = add64 t.withdrawable_balance n }

-- What `ReviewWithdrawal` adds to the audit log.
abbrev pub review_audit : String → String → ℕ → ℕ → AuditEntry
review_audit admin reason clock id = record {
  id = id;
  admin_id = admin;
  action = "withdrawal_review";
  target = "withdrawal";
  reason = reason;
  created_at = clock;
}

abbrev pub is_in_review : WithdrawalStatus → Bool
is_in_review manual_review = true
is_in_review queued = false
is_in_review submitted = false
is_in_review confirmed = false
is_in_review rejected = false

abbrev pub add_audit : String → String → ℕ → Store → Store
add_audit admin reason clock s = record s {
  next_id = next_of s;
  audits = s.audits ++ review_audit admin reason clock (next_of s) ∷ [];
}

-- A row in review goes back to the queue, or is rejected and refunded.
unfoldable pub decide :
    ℕ → Withdrawal → Bool → String → String → ℕ → Store → Result Withdrawal × Store
unfolding ensure_token put_token
decide id row true admin reason clock s =
    let row' : Withdrawal = record row {
      status = queued;
      reason = text_append "approved: " reason;
    } in
    let s₁ : Store = record s { withdrawals = insert id row' s.withdrawals } in
    (ok row', add_audit admin reason clock s₁)
decide id row false admin reason clock s =
    let row' : Withdrawal = record row { status = rejected; reason = reason } in
    let s₁ : Store = record s { withdrawals = insert id row' s.withdrawals } in
    let (token, s₂) = ensure_token row.account_id s₁ in
    (ok row', add_audit admin reason clock (put_token row.account_id (refund row.amount token) s₂))

unfoldable pub review_withdrawal :
    ℕ → Bool → String → String → ℕ → Store → Result Withdrawal × Store
unfolding decide
review_withdrawal id approve admin reason clock s = elim (lookup id s.withdrawals) [
  | none ↦ (err Error.not_found, s)
  | some row ↦
      if is_in_review row.status
      then decide id row approve admin reason clock s
      else (err Error.forbidden, s)
]
