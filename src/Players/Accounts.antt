-- ===== src/Players/Accounts.antt =====
-- `UpsertAccountByWallet`, `Account` and `SetAccountBan` of internal/platform/store/store.go.
pub mod Wallets
use Prim.Native.String.{String, ◌++◌ as ◌⧺◌}
use aeon_backend.Base.{
  Bool, Error, Option, Result, [], err, false, if◌then◌else◌, leb, none, not_found, ok, some, suc,
  zero, ℕ, ◌-◌, ◌∷◌, nat_key, text_key,
}
use aeon_backend.Base.Dict.{insert, lookup}
use aeon_backend.Store.{Account, Store, ensure_token, next}

text_length : String → ℕ
text_length String.[] = 0
text_length (String.◌∷◌ c s) = suc (text_length s)

text_drop : ℕ → String → String
text_drop zero s = s
text_drop (suc n) String.[] = String.[]
text_drop (suc n) (String.◌∷◌ c s) = text_drop n s

-- `walletSuffix`, on an ASCII text, whose bytes are its characters.
unfoldable pub wallet_suffix : String → String
unfolding text_length text_drop
wallet_suffix wallet =
    if leb (text_length wallet) 8 then wallet else text_drop (text_length wallet - 8) wallet

abbrev pub logged_in : ℕ → Account → Account
logged_in now row = record row { last_login_at = now }

abbrev pub new_account : ℕ → String → ℕ → Account
new_account id wallet now = record {
  id = id;
  username = "wallet_" ⧺ wallet_suffix wallet;
  wallet_address = wallet;
  is_banned = false;
  created_at = now;
  last_login_at = now;
}

-- The branch for a wallet that is not known.
unfoldable pub open_account : String → ℕ → Store → Account × Store
unfolding wallet_suffix ensure_token
open_account wallet now s =
    let (id, s₁) = next s in
    let row = new_account id wallet now in
    let s₂ : Store = record s₁ {
      accounts = insert id row s₁.accounts;
      by_wallet = insert wallet id s₁.by_wallet;
    } in
    (row, (ensure_token id s₂).1)

-- `UpsertAccountByWallet`: nothing is returned where the code would follow a nil pointer, since the
-- wallet's account is not there.
unfoldable pub upsert_account_by_wallet : String → ℕ → Store → Option Account × Store
unfolding open_account
upsert_account_by_wallet wallet now s = elim (lookup wallet s.by_wallet) [
  | none ↦ let (row, s₁) = open_account wallet now s in (some row, s₁)
  | some id ↦ elim (lookup id s.accounts) [
    | none ↦ (none, s)
    | some row ↦
        (some (logged_in now row), record s { accounts = insert id (logged_in now row) s.accounts })
  ]
]

-- `Account`
abbrev pub account_of : ℕ → Store → Option Account
account_of id s = lookup id s.accounts

abbrev pub with_ban : Bool → Account → Account
with_ban banned row = record row { is_banned = banned }

-- `SetAccountBan`, which `SetBanned` calls.
unfoldable pub set_account_ban : ℕ → Bool → Store → Result (Unit {0}) × Store
set_account_ban id banned s = elim (lookup id s.accounts) [
  | none ↦ (err Error.not_found, s)
  | some row ↦ (ok tt, record s { accounts = insert id (with_ban banned row) s.accounts })
]
