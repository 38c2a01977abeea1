-- ===== src/Services/Nonces.antt =====
-- ConsumeServiceNonce of internal/platform/store/service_identities.go.
use Prim.Native.String.{◌++◌ as text_append}
use aeon_backend.Base.{
  ℕ, Bool, String, ◌==◌, ◌||◌, text_key, Option, none, some, if◌then◌else◌, ltb, Error, Result, err,
  ok,
}
use aeon_backend.Base.Dict.{Dict, lookup, insert}
use aeon_backend.Base.Rows.{select}
use aeon_backend.Base.Text.{trim_space}
use aeon_backend.Store.{Store}

-- A nonce that has not expired.
abbrev pub is_fresh : ℕ → String × ℕ → Bool
is_fresh now row = ltb now row.1

-- The key of a nonce.
abbrev pub nonce_key : String → String → String
nonce_key id nonce = text_append id (text_append "\0" nonce)

abbrev pub with_service_nonces : Dict String ℕ → Store → Store
with_service_nonces rows s = record s { service_nonces = rows }

-- `ConsumeServiceNonce` behind the loop that drops the nonces that have expired.
abbrev pub take_nonce : Option ℕ → String → ℕ → Dict String ℕ → Store → Result (Unit {0}) × Store
take_nonce (some expiry) key expires_at rows s = (err Error.forbidden, with_service_nonces rows s)
take_nonce none key expires_at rows s = (ok tt, with_service_nonces (insert key expires_at rows) s)

-- `ConsumeServiceNonce`
unfoldable pub consume_service_nonce : String → String → ℕ → ℕ → Store → Result (Unit {0}) × Store
unfolding select
consume_service_nonce id nonce expires_at now s =
    let key = nonce_key (trim_space id) (trim_space nonce) in
    let rows = select (is_fresh now) s.service_nonces in
    if (trim_space id == "") || (trim_space nonce == "")
    then (err (Error.message "serviceId and nonce are required"), s)
    else take_nonce (lookup key rows) key expires_at rows s
