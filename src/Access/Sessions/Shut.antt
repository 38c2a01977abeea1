-- ===== src/Access/Sessions/Shut.antt =====
-- What the revocation of all sessions of an account shuts, and what it leaves open
-- (`AdminRevokeAccountSessions` of internal/platform/store/store.go).
use aeon_backend.Base.{
  ◌==◌, ==-false_of_ne, Bool, Bool-cases, Error, Option-cases, String, ap, err, false, inl, inr,
  nat_key, ok, refl, some, sym, text_key, true, ℕ, ◌&&◌, ◌∙◌, ◌≡◌, ◌≢◌,
}
use mathlib.Core.Option
use aeon_backend.Base.Dict.{lookup, lookup-map_values, map_values-keeps}
use aeon_backend.Store.{AccountSession, GameTicket, Store}
use aeon_backend.Access.Sessions.{
  admin_revoke_account_sessions, is_active, lookup_refresh_token, open_of, shut_of,
  touch_account_session,
}
use aeon_backend.Access.Sessions.Steps.{touch-revoked}
use aeon_backend.Access.Tickets.{consume_ticket, session_admits}
use aeon_backend.Access.Tickets.Admission.{consume_ticket-ok}

module _ (account now : ℕ) (s : Store) where
  abbrev after_all : Store
  after_all = (admin_revoke_account_sessions account now s).1

  shut_of-idle :
      (row : AccountSession)
      → row.account_id ≡ account
      → is_active (shut_of account now row).status ≡ false
  shut_of-idle row own = elim (Bool-cases (is_active row.status)) [
    | inl a ↦ rw ((nat_key.agrees row.account_id account).1 own, a) refl
    | inr a ↦ rw ((nat_key.agrees row.account_id account).1 own, a) a
  ]

  shut_of-other : (row : AccountSession) → row.account_id ≢ account → shut_of account now row ≡ row
  shut_of-other row other = rw (==-false_of_ne row.account_id account other) refl

  shut_of-account : (row : AccountSession) → (shut_of account now row).account_id ≡ row.account_id
  shut_of-account row = elim (Bool-cases (open_of account row)) [
    | inl a ↦ rw a refl
    | inr a ↦ rw a refl
  ]

  after_all-session :
      (id : String) (row : AccountSession)
      → lookup id s.sessions ≡ some row
      → lookup id after_all.sessions ≡ some (shut_of account now row)
  unfolding admin_revoke_account_sessions
  after_all-session id row there =
      lookup-map_values (shut_of account now) id s.sessions
      ∙ ap (Option.map (shut_of account now)) there

  after_all-touch :
      (id : String) (row : AccountSession) (t : ℕ)
      → lookup id s.sessions ≡ some row
      → row.account_id ≡ account
      → touch_account_session id t after_all ≡ (err Error.not_found, after_all)
  after_all-touch id row t there own =
      touch-revoked id t after_all (shut_of account now row) (after_all-session id row there)
        (shut_of-idle row own)

  -- A session of the account is not active.
  after_all-idle :
      (id : String) (row : AccountSession)
      → lookup id after_all.sessions ≡ some row
      → row.account_id ≡ account
      → is_active row.status ≡ false
  unfolding admin_revoke_account_sessions
  after_all-idle id row found =
      map_values-keeps (λ r. r.account_id ≡ account → is_active r.status ≡ false)
        (shut_of account now) id s.sessions
        (λ v there own. shut_of-idle v (sym (shut_of-account v) ∙ own)) row found

  after_all-ticket :
      (ticket server : String) (t : ℕ) (r : GameTicket)
      → (consume_ticket ticket server t after_all).0 ≡ ok r
      → r.account_id ≢ account
  after_all-ticket ticket server t r h own =
      let k = consume_ticket-ok ticket server t r after_all h in
      shut k.0 (sym (ap (λ (x : GameTicket). x.account_id) k.3) ∙ own) k.2.4
    where
      shut : (row : GameTicket) → row.account_id ≡ account → session_admits row after_all ≡ true → ⊥
      shut row own admits = elim (Option-cases (lookup row.session_id after_all.sessions)) [
        | inl e ↦ cc (rw (session_admits, e) at admits)
        | inr (session, e) ↦
            neither (session.account_id == row.account_id) (is_active session.status)
              (λ same.
                after_all-idle row.session_id session e
                  ((nat_key.agrees session.account_id row.account_id).0 same ∙ own))
              (rw (session_admits, e) at admits)
      ]
        where
          neither : (a b : Bool) → (a ≡ true → b ≡ false) → (a && b) ≡ true → ⊥
          neither true b idle h = cc (sym (idle refl) ∙ h)
          neither false b idle h = cc h

-- After all sessions of an account are revoked, none of them can be touched and no ticket of the
-- account admits, at any time; the sessions of other accounts are as they were; and every refresh
-- token is found, or refused, exactly as before, so that those of the revoked sessions stay live.
pub admin_revoke_account_sessions-shuts :
    (sha256_hex : String → String) (account now : ℕ) (s : Store)
    → let later = (admin_revoke_account_sessions account now s).1 in
      ((id : String) (row : AccountSession) (t : ℕ)
        → lookup id s.sessions ≡ some row
        → row.account_id ≡ account
        → touch_account_session id t later ≡ (err Error.not_found, later))
      × ((ticket server : String) (t : ℕ) (r : GameTicket)
          → (consume_ticket ticket server t later).0 ≡ ok r
          → r.account_id ≢ account)
      × ((id : String) (row : AccountSession)
          → lookup id s.sessions ≡ some row
          → row.account_id ≢ account
          → lookup id later.sessions ≡ some row)
      × ((raw : String) (t : ℕ)
          → lookup_refresh_token sha256_hex raw t later ≡ lookup_refresh_token sha256_hex raw t s)
admin_revoke_account_sessions-shuts sha256_hex account now s = (
  after_all-touch account now s,
  after_all-ticket account now s,
  λ id row there other.
      after_all-session account now s id row there
      ∙ ap some (shut_of-other account now s row other),
  λ raw t. unfold admin_revoke_account_sessions lookup_refresh_token in refl,
)
