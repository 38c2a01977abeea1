-- ===== src/Access/Sessions/Final.antt =====
-- A revocation is final.
use aeon_backend.Access.Tickets.Admission.{consume_ticket-ok}
use aeon_backend.Base.{
  All, Bool, Error, List, Option-cases, Result, String, ap, err, false, if◌then◌else◌, inl, inr,
  ltb, none, not, ok, refl, some, subst, sym, true, ℕ, ◌&&◌, ◌||◌, ◌∙◌, ◌≡◌, ◌≢◌, text_key, ◌==◌,
  nat_key,
}
use aeon_backend.Access.Sessions.{
  hash_token, is_active, is_none, lookup_refresh_token, revoke_account_session,
  rotate_refresh_token, touch_account_session,
}
use aeon_backend.Access.Sessions.Steps.{SessionStep, Spares, rotate-cases, take_steps, touch-cases}
use aeon_backend.Store.{GameTicket, RefreshTokenRecord, SessionStatus, Store, active, revoked}
use aeon_backend.Access.Tickets.{consume_ticket, session_admits}
use aeon_backend.Access.Sessions.Revocation.{Closed, revoke-Closed, take_steps-Closed}
use aeon_backend.Base.Dict.{lookup}

module _ (sha256_hex : String → String) (id : String) (s : Store) (c : Closed id s) where
  Closed-touch : (t : ℕ) → touch_account_session id t s ≡ (err Error.not_found, s)
  Closed-touch t = elim (touch-cases id t s) [
    | inl e ↦ e
    | inr (row, there, a, e) ↦ absurd (idle row.status (c.over row there) a)
  ]
    where
      idle : (x : SessionStatus) → x ≡ revoked → is_active x ≡ true → ⊥
      idle active p q = cc p
      idle revoked p q = cc q

  lookup_ok :
      (raw : String) (t : ℕ) (row : RefreshTokenRecord)
      → lookup_refresh_token sha256_hex raw t s ≡ ok row
      → (lookup (hash_token sha256_hex raw) s.refresh ≡ some row) × (is_none row.revoked_at ≡ true)
  unfolding lookup_refresh_token
  lookup_ok raw t row h = elim (Option-cases (lookup (hash_token sha256_hex raw) s.refresh)) [
    | inl e ↦ absurd (refused (sym (missing e) ∙ h))
    | inr (r, e) ↦
        accepted r e (is_none r.revoked_at) (ltb r.expires_at t) refl (sym (found r e) ∙ h)
  ]
    where
      the_error : Error → Result RefreshTokenRecord
      the_error e = err e

      refused : {e : Error} → the_error e ≡ ok row → ⊥
      refused p = cc p

      missing :
          lookup (hash_token sha256_hex raw) s.refresh ≡ none
          → lookup_refresh_token sha256_hex raw t s ≡ err Error.not_found
      missing e = rw (lookup_refresh_token, e) refl

      found :
          (r : RefreshTokenRecord)
          → lookup (hash_token sha256_hex raw) s.refresh ≡ some r
          → lookup_refresh_token sha256_hex raw t s ≡ (
              if not (is_none r.revoked_at) || ltb r.expires_at t
              then err Error.forbidden
              else ok r)
      found r e = rw (lookup_refresh_token, e) refl

      accepted :
          (r : RefreshTokenRecord)
          → lookup (hash_token sha256_hex raw) s.refresh ≡ some r
          → (a b : Bool) → is_none r.revoked_at ≡ a
          → (if not a || b then the_error Error.forbidden else ok r) ≡ ok row
          → (lookup (hash_token sha256_hex raw) s.refresh ≡ some row)
            × (is_none row.revoked_at ≡ true)
      accepted r e false b p q = absurd (refused q)
      accepted r e true true p q = absurd (refused q)
      accepted r e true false p q =
          let same : r ≡ row = cc q in
          (e ∙ ap some same, subst (λ (x : RefreshTokenRecord). is_none x.revoked_at ≡ true) same p)

  Closed-lookup :
      (raw : String) (t : ℕ) (row : RefreshTokenRecord)
      → lookup_refresh_token sha256_hex raw t s ≡ ok row
      → row.session_id ≢ id
  Closed-lookup raw t row h same =
      let k = lookup_ok raw t row h in differ (c.dead _ row k.0 same) k.1
    where
      differ : {b : Bool} → b ≡ false → b ≡ true → ⊥
      differ p q = cc (sym p ∙ q)

  Closed-rotate :
      (old_raw new_raw : String) (account expires t : ℕ)
      → rotate_refresh_token sha256_hex old_raw new_raw id account expires t s
        ≡ (err Error.forbidden, s)
  Closed-rotate old_raw new_raw account expires t =
      elim (rotate-cases sha256_hex old_raw new_raw id account expires t s) [
        | inl e ↦ e
        | inr (old, there, owner, live, e) ↦ absurd (differ (c.dead _ old there owner) live)
      ]
    where
      differ : {b : Bool} → b ≡ false → b ≡ true → ⊥
      differ p q = cc (sym p ∙ q)

  Closed-ticket :
      (ticket server : String) (t : ℕ) (r : GameTicket)
      → (consume_ticket ticket server t s).0 ≡ ok r
      → r.session_id ≢ id
  Closed-ticket ticket server t r h same =
      let k = consume_ticket-ok ticket server t r s h in
      shut k.0 (sym (ap (λ (x : GameTicket). x.session_id) k.3) ∙ same) k.2.4
    where
      shut : (row : GameTicket) → row.session_id ≡ id → session_admits row s ≡ true → ⊥
      shut row same admits = elim (Option-cases (lookup row.session_id s.sessions)) [
        | inl e ↦ cc (rw (session_admits, e) at admits)
        | inr (session, e) ↦
            idle (session.account_id == row.account_id) session.status
              (c.over session (ap (λ k. lookup k s.sessions) (sym same) ∙ e))
              (rw (session_admits, e) at admits)
      ]
        where
          idle : (b : Bool) (x : SessionStatus) → x ≡ revoked → (b && is_active x) ≡ true → ⊥
          idle b active p q = cc p
          idle true revoked p q = cc q
          idle false revoked p q = cc q

-- After a session is revoked, and whatever is created under other identifiers, touched, rotated
-- and revoked afterwards, also all of an account at once, the session cannot be touched, no refresh token of it is found, no rotation for
-- it goes through, and no ticket of it admits.
pub revoke_account_session-final :
    (sha256_hex : String → String) (id : String) (now : ℕ) (us : List SessionStep) (s : Store)
    → All (Spares id) us
    → let later = take_steps sha256_hex us (revoke_account_session id now s) in
      ((t : ℕ) → touch_account_session id t later ≡ (err Error.not_found, later))
      × ((raw : String) (t : ℕ) (row : RefreshTokenRecord)
          → lookup_refresh_token sha256_hex raw t later ≡ ok row
          → row.session_id ≢ id)
      × ((old_raw new_raw : String) (account expires t : ℕ)
          → rotate_refresh_token sha256_hex old_raw new_raw id account expires t later
            ≡ (err Error.forbidden, later))
      × ((ticket server : String) (t : ℕ) (r : GameTicket)
          → (consume_ticket ticket server t later).0 ≡ ok r
          → r.session_id ≢ id)
revoke_account_session-final sha256_hex id now us s spared =
    let c =
      take_steps-Closed sha256_hex id us (revoke_account_session id now s) spared
        (revoke-Closed id now s) in
    let later = take_steps sha256_hex us (revoke_account_session id now s) in
    (
      Closed-touch sha256_hex id later c,
      Closed-lookup sha256_hex id later c,
      Closed-rotate sha256_hex id later c,
      Closed-ticket sha256_hex id later c,
    )
