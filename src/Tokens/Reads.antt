-- ===== src/Tokens/Reads.antt =====
-- `Token`, `ListWithdrawals`, `Ledger`, `Audit` and `AuditTarget` of
-- internal/platform/store/store.go.
use Prim.Native.String.{◌++◌ as text_append}
use aeon_backend.Base.{
  List, String, [], if◌then◌else◌, sort_by, ℕ, ◌++◌, ◌==◌, ◌||◌, ◌∷◌, nat_key, text_key,
}
use aeon_backend.Store.{
  AccountToken, AuditEntry, LedgerEntry, Store, Withdrawal, WithdrawalStatus, confirmed,
  ensure_token, manual_review, next, queued, rejected, submitted,
}
use aeon_backend.Base.Rows.{select}
use aeon_backend.Base.Dict.{Dict}

-- `Token`: reading makes the row.
unfoldable pub token : ℕ → Store → AccountToken × Store
unfolding ensure_token
token account s = ensure_token account s

-- The text of a status, as rows are compared with the one asked for.
abbrev pub status_name : WithdrawalStatus → String
status_name queued = "queued"
status_name manual_review = "manual_review"
status_name submitted = "submitted"
status_name confirmed = "confirmed"
status_name rejected = "rejected"

-- `ListWithdrawals`
unfoldable pub list_withdrawals :
    (Dict ℕ Withdrawal → Dict ℕ Withdrawal) → String → Store → Dict ℕ Withdrawal
unfolding select sort_by
list_withdrawals visit status s =
    sort_by (λ e. e.1.created_at)
      (select (λ e. (status == "") || (status_name e.1.status == status)) (visit s.withdrawals))

-- `Ledger`: account 0 asks for all of them.
unfoldable pub ledger_of : ℕ → Store → List LedgerEntry
unfolding select
ledger_of account s = select (λ row. (account == 0) || (row.account_id == account)) s.ledger

abbrev pub audit_row : String → String → String → String → ℕ → ℕ → AuditEntry
audit_row admin action target reason clock id = record {
  id = id;
  admin_id = admin;
  action = action;
  target = target;
  reason = reason;
  created_at = clock;
}

-- `Audit`
unfoldable pub audit : String → String → String → String → ℕ → Store → AuditEntry × Store
audit admin action target reason clock s =
    let (id, s₁) = next s in
    let row = audit_row admin action target reason clock id in
    (row, record s₁ { audits = s₁.audits ++ row ∷ [] })

-- `AuditTarget`
unfoldable pub audit_target :
    String → String → String → String → String → ℕ → Store → AuditEntry × Store
unfolding audit
audit_target admin action target_type target_id reason clock s =
    let target : String =
      if target_id == ""
      then target_type
      else text_append target_type (text_append ":" target_id) in
    audit admin action target reason clock s
