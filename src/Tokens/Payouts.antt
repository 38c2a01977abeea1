-- ===== src/Tokens/Payouts.antt =====
-- `CreateWithdrawal` of internal/platform/store/store.go.
use Prim.Native.String.{◌++◌ as text_append}
use aeon_backend.Base.{
  ℕ, String, Bool, ◌==◌, if◌then◌else◌, Result, ok, err, Error, nat_key, text_key,
}
use aeon_backend.Base.Int.{ℤ, pos, sub64, leb_ℤ, ltb_ℤ}
use aeon_backend.Base.Dict.{insert}
use aeon_backend.Base.Text.{trim_space, format_id}
use aeon_backend.Store.{
  Store, AccountToken, Withdrawal, queued, manual_review, next, ensure_token, put_token, add_ledger,
}
use aeon_backend.Tokens.Reads.{token}

-- The text of a withdrawal's status, for the ledger.
abbrev pub status_text : Bool → String
status_text manual = if manual then "manual_review" else "queued"

-- The destination: `pending_wallet_for_account_<id>` if none is given.
pub payout_wallet : ℕ → String → String
payout_wallet account wallet =
    let trimmed = trim_space wallet in
    if trimmed == "" then text_append "pending_wallet_for_account_" (format_id account) else trimmed

abbrev pub new_withdrawal : ℕ → ℕ → ℤ → String → Bool → ℕ → Withdrawal
new_withdrawal id account amount wallet manual clock = record {
  id = id;
  account_id = account;
  wallet = payout_wallet account wallet;
  amount = amount;
  status = if manual then manual_review else queued;
  reason = if manual then "manual requested" else "";
  tx_hash = "";
  created_at = clock;
  processed_at = 0;
}

abbrev pub debit : ℤ → AccountToken → AccountToken
debit n t = record t { withdrawable_balance = sub64 t.withdrawable_balance n }

unfoldable pub create_withdrawal : ℕ → ℤ → String → Bool → ℕ → Store → Result Withdrawal × Store
unfolding ensure_token put_token add_ledger
create_withdrawal account amount wallet manual clock s =
    if leb_ℤ amount (pos 0)
    then (err (Error.message "amount must be positive"), s)
    else (let (token, s₁) = ensure_token account s in
        if ltb_ℤ token.withdrawable_balance amount
        then (err Error.insufficient_balance, s₁)
        else (let (id, s₂) = next s₁ in
            let s₃ = put_token account (debit amount token) s₂ in
            let row = new_withdrawal id account amount wallet manual clock in
            let s₄ : Store = record s₃ { withdrawals = insert id row s₃.withdrawals } in
            (
              ok row,
              add_ledger account "WITHDRAWAL_REQUESTED" amount "" (status_text manual) clock s₄,
            )))
