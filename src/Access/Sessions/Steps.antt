-- ===== src/Access/Sessions/Steps.antt =====
-- Steps of the session store, and the outcomes of a touch and of a rotation.
use aeon_backend.Store.{AccountSession, RefreshTokenRecord, Store}
use aeon_backend.Base.{
  Bool-cases, Error, List, Option-cases, String, [], err, false, if◌then◌else◌, inl, inr, none, not,
  ok, refl, some, text_key, true, ℕ, ◌==◌, ◌||◌, ◌∙◌, ◌∷◌, ◌≡◌, ◌≢◌, ◌⊎◌,
}
use aeon_backend.Access.Sessions.{
  CreateSessionRequest, create_account_session, hash_token, is_active, is_none,
  revoke_account_session, rotate_refresh_token, rotated, seen, touch_account_session,
  admin_revoke_account_sessions,
}
use aeon_backend.Base.Dict.{insert, lookup}

-- What may happen to sessions later.
pub data SessionStep : Type 0 where
  create : CreateSessionRequest → ℕ → SessionStep
  touch revoke : String → ℕ → SessionStep
  rotate : String → String → String → ℕ → ℕ → ℕ → SessionStep
  revoke_all : ℕ → ℕ → SessionStep

-- The step does not create a session under this identifier.
abbrev pub Spares : String → SessionStep → Type 0
Spares id (create req clock) = req.session_id ≢ id
Spares id (touch other now) = Unit
Spares id (revoke other now) = Unit
Spares id (rotate old_raw new_raw other account expires now) = Unit
Spares id (revoke_all account now) = Unit

-- The branches of a touch and of a rotation.
module _ (id : String) (now : ℕ) (s : Store) where
  touch-missing :
      lookup id s.sessions ≡ none → touch_account_session id now s ≡ (err Error.not_found, s)
  unfolding touch_account_session
  touch-missing e = rw (touch_account_session, e) refl

  pub touch-revoked :
      (row : AccountSession)
      → lookup id s.sessions ≡ some row
      → is_active row.status ≡ false
      → touch_account_session id now s ≡ (err Error.not_found, s)
  unfolding touch_account_session
  touch-revoked row e a = rw (touch_account_session, e, a) refl

  touch-active :
      (row : AccountSession)
      → lookup id s.sessions ≡ some row
      → is_active row.status ≡ true
      → touch_account_session id now s
        ≡ (ok tt, record s { sessions = insert id (seen now row) s.sessions })
  unfolding touch_account_session
  touch-active row e a = rw (touch_account_session, e, a) refl

module _ (sha256_hex : String → String) where
  abbrev pub take_step : SessionStep → Store → Store
  take_step (create req clock) s = (create_account_session sha256_hex req clock s).1
  take_step (touch id now) s = (touch_account_session id now s).1
  take_step (revoke id now) s = revoke_account_session id now s
  take_step (rotate old_raw new_raw id account expires now) s =
      (rotate_refresh_token sha256_hex old_raw new_raw id account expires now s).1
  take_step (revoke_all account now) s = (admin_revoke_account_sessions account now s).1

  abbrev pub take_steps : List SessionStep → Store → Store
  take_steps [] s = s
  take_steps (u ∷ us) s = take_steps us (take_step u s)

  rotate-missing :
      (old_raw new_raw id : String) (account expires now : ℕ) (s : Store)
      → lookup (hash_token sha256_hex old_raw) s.refresh ≡ none
      → rotate_refresh_token sha256_hex old_raw new_raw id account expires now s
        ≡ (err Error.forbidden, s)
  unfolding rotate_refresh_token
  rotate-missing old_raw new_raw id account expires now s e = rw (rotate_refresh_token, e) refl

  rotate-found :
      (old_raw new_raw id : String) (account expires now : ℕ) (old : RefreshTokenRecord) (s : Store)
      → lookup (hash_token sha256_hex old_raw) s.refresh ≡ some old
      → rotate_refresh_token sha256_hex old_raw new_raw id account expires now s ≡ (
          if not (old.session_id == id) || not (is_none old.revoked_at)
          then (err Error.forbidden, s)
          else (ok tt, rotated sha256_hex old_raw new_raw id account expires now old s))
  unfolding rotate_refresh_token
  rotate-found old_raw new_raw id account expires now old s e = rw (rotate_refresh_token, e) refl

  -- A rotation is forbidden and changes nothing, or it finds the old token, of the session and not
  -- revoked.
  pub rotate-cases :
      (old_raw new_raw id : String) (account expires now : ℕ) (s : Store)
      → (rotate_refresh_token sha256_hex old_raw new_raw id account expires now s
          ≡ (err Error.forbidden, s))
        ⊎ ((old : RefreshTokenRecord) × (lookup (hash_token sha256_hex old_raw) s.refresh
              ≡ some old)
            × (old.session_id ≡ id)
            × (is_none old.revoked_at ≡ true)
            × (rotate_refresh_token sha256_hex old_raw new_raw id account expires now s
                ≡ (ok tt, rotated sha256_hex old_raw new_raw id account expires now old s)))
  rotate-cases old_raw new_raw id account expires now s =
      elim (Option-cases (lookup (hash_token sha256_hex old_raw) s.refresh)) [
        | inl e ↦ inl (rotate-missing old_raw new_raw id account expires now s e)
        | inr (old, e) ↦
            found old e (Bool-cases (old.session_id == id)) (Bool-cases (is_none old.revoked_at))
      ]
    where
      found :
          (old : RefreshTokenRecord)
          → lookup (hash_token sha256_hex old_raw) s.refresh ≡ some old
          → ((old.session_id == id) ≡ true) ⊎ ((old.session_id == id) ≡ false)
          → (is_none old.revoked_at ≡ true) ⊎ (is_none old.revoked_at ≡ false)
          → (rotate_refresh_token sha256_hex old_raw new_raw id account expires now s
              ≡ (err Error.forbidden, s))
            ⊎ ((old : RefreshTokenRecord) × (lookup (hash_token sha256_hex old_raw) s.refresh
                  ≡ some old)
                × (old.session_id ≡ id)
                × (is_none old.revoked_at ≡ true)
                × (rotate_refresh_token sha256_hex old_raw new_raw id account expires now s
                    ≡ (ok tt, rotated sha256_hex old_raw new_raw id account expires now old s)))
      found old e (inl a) (inl b) = inr (
        old,
        e,
        (text_key.agrees old.session_id id).0 a,
        b,
        rotate-found old_raw new_raw id account expires now old s e ∙ rw (a, b) refl,
      )
      found old e (inl a) (inr b) =
          inl (rotate-found old_raw new_raw id account expires now old s e ∙ rw (a, b) refl)
      found old e (inr a) b =
          inl (rotate-found old_raw new_raw id account expires now old s e ∙ rw a refl)

-- A touch fails and changes nothing, or it finds the session active.
pub touch-cases :
    (id : String) (now : ℕ) (s : Store)
    → (touch_account_session id now s ≡ (err Error.not_found, s))
      ⊎ ((row : AccountSession) × (lookup id s.sessions ≡ some row)
          × (is_active row.status ≡ true)
          × (touch_account_session id now s
              ≡ (ok tt, record s { sessions = insert id (seen now row) s.sessions })))
touch-cases id now s = elim (Option-cases (lookup id s.sessions)) [
  | inl e ↦ inl (touch-missing id now s e)
  | inr (row, e) ↦ elim (Bool-cases (is_active row.status)) [
    | inl a ↦ inr (row, e, a, touch-active id now s row e a)
    | inr a ↦ inl (touch-revoked id now s row e a)
  ]
]
