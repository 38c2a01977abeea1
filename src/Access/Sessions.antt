-- ===== src/Access/Sessions.antt =====
-- Account sessions and their refresh tokens (internal/platform/store/store.go). The SHA-256 of a text
-- in hexadecimal, of crypto/sha256, is a parameter.
pub mod Steps
pub mod Revocation
pub mod Final
pub mod Rotation
pub mod Swap
pub mod Shut
use aeon_backend.Base.{
  Bool, Error, List, Option, Result, String, [], err, false, forbidden, if◌then◌else◌, length, ltb,
  none, not, not_found, ok, or_fail, some, true, ℕ, ◌&&◌, ◌==◌, ◌||◌, ◌∷◌, nat_key, text_key, suc,
}
use aeon_backend.Base.Dict.{Dict, insert, lookup, map_values, update_at}
use aeon_backend.Store.{AccountSession, RefreshTokenRecord, SessionStatus, Store, active, revoked}
use aeon_backend.Base.Text.{trim_space}

pub record CreateSessionRequest : Type 0 where
  pub session_id : String
  pub account_id : ℕ
  pub wallet_plugin : String
  pub device_id : String
  pub ip_address : String
  pub user_agent : String
  pub refresh_token : String
  pub expires_at : ℕ

abbrev pub new_session : CreateSessionRequest → ℕ → AccountSession
new_session req clock = record {
  session_id = req.session_id;
  account_id = req.account_id;
  wallet_plugin = req.wallet_plugin;
  device_id = req.device_id;
  ip_address = req.ip_address;
  user_agent = req.user_agent;
  status = active;
  created_at = clock;
  last_seen_at = some clock;
  revoked_at = none;
}

abbrev pub new_refresh : String → ℕ → String → ℕ → ℕ → RefreshTokenRecord
new_refresh token_hash account session_id expires_at clock = record {
  token_hash = token_hash;
  account_id = account;
  session_id = session_id;
  expires_at = expires_at;
  revoked_at = none;
  created_at = clock;
}

abbrev pub is_active : SessionStatus → Bool
is_active active = true
is_active revoked = false

-- `GetAccountSession`
unfoldable pub get_account_session : String → Store → Result AccountSession
get_account_session id s = or_fail (lookup id s.sessions) Error.not_found

abbrev pub seen : ℕ → AccountSession → AccountSession
seen now row = record row { last_seen_at = some now }

-- `TouchAccountSession`
unfoldable pub touch_account_session : String → ℕ → Store → Result (Unit {0}) × Store
touch_account_session id now s = elim (lookup id s.sessions) [
  | none ↦ (err Error.not_found, s)
  | some row ↦
      if is_active row.status
      then (ok tt, record s { sessions = insert id (seen now row) s.sessions })
      else (err Error.not_found, s)
]

abbrev pub revoke_session : ℕ → AccountSession → AccountSession
revoke_session now row = record row { status = revoked; revoked_at = some now }

abbrev pub is_none {ℓ} : {A : Type ℓ} → Option A → Bool
is_none none = true
is_none (some a) = false

abbrev pub revoke_refresh : ℕ → RefreshTokenRecord → RefreshTokenRecord
revoke_refresh now row = record row { revoked_at = some now }

abbrev pub revoke_of_session : String → ℕ → RefreshTokenRecord → RefreshTokenRecord
revoke_of_session id now row =
    if (row.session_id == id) && is_none row.revoked_at then revoke_refresh now row else row

-- `RevokeAccountSession`, which never fails.
unfoldable pub revoke_account_session : String → ℕ → Store → Store
revoke_account_session id now s = record s {
  sessions = update_at id (revoke_session now) s.sessions;
  refresh = map_values (revoke_of_session id now) s.refresh;
}

-- The row is one that `AdminRevokeAccountSessions` counts.
abbrev pub open_of : ℕ → AccountSession → Bool
open_of account row = (row.account_id == account) && is_active row.status

abbrev pub shut_of : ℕ → ℕ → AccountSession → AccountSession
shut_of account now row = if open_of account row then revoke_session now row else row

unfoldable pub count_open : ℕ → Dict String AccountSession → ℕ
count_open account [] = 0
count_open account ((id, row) ∷ m) =
    let rest = count_open account m in if open_of account row then suc rest else rest

-- `AdminRevokeAccountSessions`, which leaves the refresh tokens alone, and never fails.
unfoldable pub admin_revoke_account_sessions : ℕ → ℕ → Store → ℕ × Store
unfolding count_open
admin_revoke_account_sessions account now s = (
  count_open account s.sessions,
  record s { sessions = map_values (shut_of account now) s.sessions },
)

module _ (sha256_hex : String → String) where
  -- `HashToken` of sessions.go
  abbrev pub hash_token : String → String
  hash_token raw = sha256_hex (trim_space raw)

  -- `CreateAccountSession`
  unfoldable pub create_account_session : CreateSessionRequest → ℕ → Store → AccountSession × Store
  create_account_session req clock s = (
    new_session req clock,
    record s {
      sessions = insert req.session_id (new_session req clock) s.sessions;
      refresh =
          insert (hash_token req.refresh_token)
            (new_refresh (hash_token req.refresh_token) req.account_id req.session_id req.expires_at
              clock)
            s.refresh;
    },
  )

  -- `LookupRefreshToken`
  unfoldable pub lookup_refresh_token : String → ℕ → Store → Result RefreshTokenRecord
  lookup_refresh_token raw now s = elim (lookup (hash_token raw) s.refresh) [
    | none ↦ err Error.not_found
    | some row ↦
        if not (is_none row.revoked_at) || ltb row.expires_at now
        then err Error.forbidden
        else ok row
  ]

  -- The branch of `RotateRefreshToken` that rotates.
  unfoldable pub rotated : String → String → String → ℕ → ℕ → ℕ → RefreshTokenRecord → Store → Store
  rotated old_raw new_raw session_id account expires_at now old s = record s {
    sessions = update_at session_id (seen now) s.sessions;
    refresh =
        insert (hash_token new_raw)
          (new_refresh (hash_token new_raw) account session_id expires_at now)
          (insert (hash_token old_raw) (revoke_refresh now old) s.refresh);
  }

  -- `RotateRefreshToken`
  unfoldable pub rotate_refresh_token :
      String → String → String → ℕ → ℕ → ℕ → Store → Result (Unit {0}) × Store
  unfolding rotated
  rotate_refresh_token old_raw new_raw session_id account expires_at now s =
      elim (lookup (hash_token old_raw) s.refresh) [
        | none ↦ (err Error.forbidden, s)
        | some old ↦
            if not (old.session_id == session_id) || not (is_none old.revoked_at)
            then (err Error.forbidden, s)
            else (ok tt, rotated old_raw new_raw session_id account expires_at now old s)
      ]

-- `CountMonthlyActiveAccounts`: the accounts seen since, each counted once.
unfoldable pub seen_accounts : ℕ → Dict String AccountSession → List ℕ → List ℕ
seen_accounts since [] acc = acc
seen_accounts since ((id, row) ∷ m) acc =
    let known = seen_accounts since m acc in
    let added = seen_accounts since m (row.account_id ∷ acc) in
    elim row.last_seen_at [
      | none ↦ known
      | some at_time ↦
          if ltb at_time since then known else if has row.account_id acc then known else added
    ]
  where
    has : ℕ → List ℕ → Bool
    has a [] = false
    has a (b ∷ bs) = if b == a then true else has a bs

unfoldable pub count_monthly_active_accounts : ℕ → Store → ℕ
unfolding seen_accounts
count_monthly_active_accounts since s = length (seen_accounts since s.sessions [])
