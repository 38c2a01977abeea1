-- ===== src/Access/Nonces.antt =====
-- `SaveWalletNonce`, `WalletNonce` and `ConsumeWalletNonce` of internal/platform/store/store.go.
pub mod Once
use aeon_backend.Store.{Store, WalletLoginNonce}
use aeon_backend.Base.{
  Error, Result, String, err, forbidden, if◌then◌else◌, ltb, none, not, not_found, ok, some, ℕ,
  ◌==◌, ◌||◌, nat_key, text_key,
}
use aeon_backend.Base.Dict.{insert, lookup}

abbrev with_nonce_status : String → WalletLoginNonce → WalletLoginNonce
with_nonce_status status row = record row { status = status }

-- A write through the pointer to a nonce's row.
unfoldable pub put_nonce : String → WalletLoginNonce → Store → Store
put_nonce nonce row s = record s { nonces = insert nonce row s.nonces }

abbrev pub dated : ℕ → WalletLoginNonce → WalletLoginNonce
dated clock row = if row.created_at == 0 then record row { created_at = clock } else row

abbrev pub defaulted : WalletLoginNonce → WalletLoginNonce
defaulted row = if row.status == "" then with_nonce_status "PENDING" row else row

unfoldable pub save_wallet_nonce : WalletLoginNonce → ℕ → Store → Store
unfolding put_nonce
save_wallet_nonce row clock s = put_nonce row.nonce (defaulted (dated clock row)) s

-- The branches of `WalletNonce` on a row that is there.
unfoldable pub view_row :
    String → String → ℕ → WalletLoginNonce → Store → Result WalletLoginNonce × Store
unfolding put_nonce
view_row nonce wallet now row s =
    if not (row.wallet == wallet)
    then (err Error.not_found, s)
    else if not (row.status == "PENDING")
    then (err Error.forbidden, s)
    else if not (ltb now row.expires_at)
    then (err Error.forbidden, put_nonce nonce (with_nonce_status "EXPIRED" row) s)
    else (ok row, s)

unfoldable pub wallet_nonce : String → String → ℕ → Store → Result WalletLoginNonce × Store
unfolding view_row
wallet_nonce nonce wallet now s = elim (lookup nonce s.nonces) [
  | none ↦ (err Error.not_found, s)
  | some row ↦ view_row nonce wallet now row s
]

-- The branches of `ConsumeWalletNonce` on a row that is there.
unfoldable pub consume_row :
    String → String → ℕ → WalletLoginNonce → Store → Result (Unit {0}) × Store
unfolding put_nonce
consume_row nonce wallet now row s =
    if not (row.wallet == wallet)
    then (err Error.not_found, s)
    else if not (row.status == "PENDING") || not (ltb now row.expires_at)
    then (if row.status == "PENDING"
        then (err Error.forbidden, put_nonce nonce (with_nonce_status "EXPIRED" row) s)
        else (err Error.forbidden, s))
    else (ok tt, put_nonce nonce (with_nonce_status "CONSUMED" row) s)

unfoldable pub consume_wallet_nonce : String → String → ℕ → Store → Result (Unit {0}) × Store
unfolding consume_row
consume_wallet_nonce nonce wallet now s = elim (lookup nonce s.nonces) [
  | none ↦ (err Error.not_found, s)
  | some row ↦ consume_row nonce wallet now row s
]
