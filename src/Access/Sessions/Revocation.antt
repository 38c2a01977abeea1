-- ===== src/Access/Sessions/Revocation.antt =====
-- What a revoked session can no longer do.
use aeon_backend.Store.{AccountSession, RefreshTokenRecord, Store, revoked}
use aeon_backend.Access.Sessions.Steps.{
  SessionStep, Spares, create, revoke, rotate, rotate-cases, take_step, take_steps, touch,
  touch-cases, revoke_all,
}
use aeon_backend.Base.{
  All, Bool, Bool-cases, List, Result, String, [], ap, false, inl, inr, refl, some, subst, sym,
  text_key, true, ℕ, ◌&&◌, ◌==◌, ◌∙◌, ◌∷◌, ◌≡◌, ◌≢◌,
}
use aeon_backend.Access.Sessions.{
  CreateSessionRequest, create_account_session, hash_token, is_none, new_refresh, new_session,
  revoke_account_session, revoke_of_session, revoke_refresh, revoke_session, rotate_refresh_token,
  rotated, seen, touch_account_session, admin_revoke_account_sessions, shut_of, open_of,
}
use aeon_backend.Base.Dict.{
  insert, insert-keeps, lookup, map_values-keeps, update_at-keeps, update_at-self,
}

-- The session, if there is one, is revoked, and so are its refresh tokens.
pub record Closed (id : String) (s : Store) : Type 0 where
  pub over : (row : AccountSession) → lookup id s.sessions ≡ some row → row.status ≡ revoked
  pub dead :
      (h : String) (row : RefreshTokenRecord)
      → lookup h s.refresh ≡ some row
      → row.session_id ≡ id
      → is_none row.revoked_at ≡ false

revoke_of_session-dead :
    (id : String) (now : ℕ) (row : RefreshTokenRecord)
    → (revoke_of_session id now row).session_id ≡ id
    → is_none (revoke_of_session id now row).revoked_at ≡ false
revoke_of_session-dead id now row h = elim (Bool-cases (row.session_id == id)) [
  | inl a ↦ elim (Bool-cases (is_none row.revoked_at)) [
    | inl b ↦ rw (a, b) refl
    | inr b ↦ rw (a, b) b
  ]
  | inr a ↦ absurd (other a ((text_key.agrees row.session_id id).1 (rw a at h)))
]
  where
    other : (row.session_id == id) ≡ false → (row.session_id == id) ≡ true → ⊥
    other a b = cc (sym a ∙ b)

-- A revocation closes the session.
pub revoke-Closed :
    (id : String) (now : ℕ) (s : Store) → Closed id (revoke_account_session id now s)
unfolding revoke_account_session
revoke-Closed id now s = record {
  over = λ row h.
      update_at-self (λ r. r.status ≡ revoked) id (revoke_session now) s.sessions (λ r. refl) row h;
  dead = λ h row found.
      map_values-keeps (λ r. r.session_id ≡ id → is_none r.revoked_at ≡ false)
        (revoke_of_session id now) h s.refresh (λ r there. revoke_of_session-dead id now r) row
        found;
}

module _ (sha256_hex : String → String) (id : String) where
  create-Closed :
      (req : CreateSessionRequest) (clock : ℕ) (s : Store)
      → req.session_id ≢ id
      → Closed id s
      → Closed id (create_account_session sha256_hex req clock s).1
  unfolding create_account_session
  create-Closed req clock s other c = record {
    over =
        insert-keeps (λ r. r.status ≡ revoked) id req.session_id (new_session req clock) s.sessions
          (λ e. absurd (other e)) c.over;
    dead = λ h.
        insert-keeps (λ r. r.session_id ≡ id → is_none r.revoked_at ≡ false) h
          (hash_token sha256_hex req.refresh_token)
          (new_refresh (hash_token sha256_hex req.refresh_token) req.account_id req.session_id
            req.expires_at clock)
          s.refresh (λ e f. absurd (other f)) (c.dead h);
  }

  touch-Closed :
      (other : String) (now : ℕ) (s : Store)
      → Closed id s
      → Closed id (touch_account_session other now s).1
  touch-Closed other now s c = elim (touch-cases other now s) [
    | inl e ↦ subst (λ (r : Result (Unit {0}) × Store). Closed id r.1) (sym e) c
    | inr (row, there, a, e) ↦
        subst (λ (r : Result (Unit {0}) × Store). Closed id r.1) (sym e)
          (record {
            over =
                insert-keeps (λ r. r.status ≡ revoked) id other (seen now row) s.sessions
                  (λ same. c.over row (ap (λ k. lookup k s.sessions) (sym same) ∙ there)) c.over;
            dead = c.dead;
          })
  ]

  again-Closed :
      (other : String) (now : ℕ) (s : Store)
      → Closed id s
      → Closed id (revoke_account_session other now s)
  unfolding revoke_account_session
  again-Closed other now s c = record {
    over =
        update_at-keeps (λ r. r.status ≡ revoked) id other (revoke_session now) s.sessions
          (λ v there p. refl) c.over;
    dead = λ h.
        map_values-keeps (λ r. r.session_id ≡ id → is_none r.revoked_at ≡ false)
          (revoke_of_session other now) h s.refresh (λ r there. kept h r there);
  }
    where
      kept :
          (h : String) (r : RefreshTokenRecord)
          → lookup h s.refresh ≡ some r
          → (revoke_of_session other now r).session_id ≡ id
          → is_none (revoke_of_session other now r).revoked_at ≡ false
      kept h r there same = elim (Bool-cases ((r.session_id == other) && is_none r.revoked_at)) [
        | inl a ↦ rw a refl
        | inr a ↦ rw a (c.dead h r there (rw a at same))
      ]

  all-Closed :
      (account now : ℕ) (s : Store)
      → Closed id s
      → Closed id (admin_revoke_account_sessions account now s).1
  unfolding admin_revoke_account_sessions
  all-Closed account now s c = record {
    over =
        map_values-keeps (λ r. r.status ≡ revoked) (shut_of account now) id s.sessions
          (λ v there. kept v (c.over v there));
    dead = c.dead;
  }
    where
      kept : (v : AccountSession) → v.status ≡ revoked → (shut_of account now v).status ≡ revoked
      kept v over = elim (Bool-cases (open_of account v)) [ inl a ↦ rw a refl | inr a ↦ rw a over ]

  -- A rotation that goes through is of another session, since those of this one are revoked.
  rotate-Closed :
      (old_raw new_raw other : String) (account expires now : ℕ) (s : Store)
      → Closed id s
      → Closed id (rotate_refresh_token sha256_hex old_raw new_raw other account expires now s).1
  unfolding rotated
  rotate-Closed old_raw new_raw other account expires now s c =
      elim (rotate-cases sha256_hex old_raw new_raw other account expires now s) [
        | inl e ↦ subst (λ (r : Result (Unit {0}) × Store). Closed id r.1) (sym e) c
        | inr (old, there, owner, live, e) ↦
            let apart = λ (same : other ≡ id). differ (c.dead _ old there (owner ∙ same)) live in
            subst (λ (r : Result (Unit {0}) × Store). Closed id r.1) (sym e)
              (record {
                over =
                    update_at-keeps (λ r. r.status ≡ revoked) id other (seen now) s.sessions
                      (λ v at_id p. p) c.over;
                dead = λ h.
                    insert-keeps (λ r. r.session_id ≡ id → is_none r.revoked_at ≡ false) h
                      (hash_token sha256_hex new_raw)
                      (new_refresh (hash_token sha256_hex new_raw) account other expires now)
                      (insert (hash_token sha256_hex old_raw) (revoke_refresh now old) s.refresh)
                      (λ at_h same. absurd (apart same))
                      (insert-keeps (λ r. r.session_id ≡ id → is_none r.revoked_at ≡ false) h
                        (hash_token sha256_hex old_raw) (revoke_refresh now old) s.refresh
                        (λ at_h same. refl) (c.dead h));
              })
      ]
    where
      differ : {b : Bool} → b ≡ false → b ≡ true → ⊥
      differ p q = cc (sym p ∙ q)

  take_step-Closed :
      (u : SessionStep) (s : Store)
      → Spares id u
      → Closed id s
      → Closed id (take_step sha256_hex u s)
  take_step-Closed (create req clock) s other c = create-Closed req clock s other c
  take_step-Closed (touch other now) s spared c = touch-Closed other now s c
  take_step-Closed (revoke other now) s spared c = again-Closed other now s c
  take_step-Closed (rotate old_raw new_raw other account expires now) s spared c =
      rotate-Closed old_raw new_raw other account expires now s c
  take_step-Closed (revoke_all account now) s spared c = all-Closed account now s c

  pub take_steps-Closed :
      (us : List SessionStep) (s : Store)
      → All (Spares id) us
      → Closed id s
      → Closed id (take_steps sha256_hex us s)
  take_steps-Closed [] s spared c = c
  take_steps-Closed (u ∷ us) s spared c =
      take_steps-Closed us (take_step sha256_hex u s) spared.1 (take_step-Closed u s spared.0 c)
