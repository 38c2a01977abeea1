-- ===== src/Access/Sessions/Rotation.antt =====
-- Refresh tokens that rotate: one live token for each session.
use aeon_backend.Access.Sessions.{
  CreateSessionRequest, create_account_session, hash_token, is_none, new_refresh,
  revoke_account_session, revoke_of_session, rotate_refresh_token, rotated, touch_account_session,
  admin_revoke_account_sessions,
}
use aeon_backend.Base.{
  Bool-cases, Result, String, ap, false, inl, inr, refl, some, subst, sym, true, ℕ, ◌&&◌, ◌==◌, ◌∙◌,
  ◌≡◌, ◌≢◌, ◌⊎◌, text_key,
}
use aeon_backend.Access.Sessions.Steps.{
  SessionStep, create, revoke, rotate, rotate-cases, take_step, touch, touch-cases, revoke_all,
}
use aeon_backend.Store.{RefreshTokenRecord, Store, new}
use aeon_backend.Base.Dict.{insert-cases, lookup, map_values-keeps}

-- Two live tokens of one session are the same token.
abbrev pub SingleLive : Store → Type 0
SingleLive s =
    (h k : String) (r q : RefreshTokenRecord)
    → lookup h s.refresh ≡ some r
    → lookup k s.refresh ≡ some q
    → is_none r.revoked_at ≡ true
    → is_none q.revoked_at ≡ true
    → r.session_id ≡ q.session_id
    → h ≡ k

-- No refresh token names the session.
abbrev pub Unused : String → Store → Type 0
Unused id s =
    (h : String) (r : RefreshTokenRecord) → lookup h s.refresh ≡ some r → r.session_id ≢ id

module _ (sha256_hex : String → String) where
  create-SingleLive :
      (req : CreateSessionRequest) (clock : ℕ) (s : Store)
      → Unused req.session_id s
      → SingleLive s
      → SingleLive (create_account_session sha256_hex req clock s).1
  unfolding create_account_session
  create-SingleLive req clock s unused live h k r q at_h at_k free_r free_q same =
      elim (insert-cases h H row r s.refresh at_h) [
        | inl (e, x) ↦ elim (insert-cases k H row q s.refresh at_k) [
          | inl (f, y) ↦ sym e ∙ f
          | inr (f, there) ↦ absurd (unused k q there (sym same ∙ sym (ap (λ z. z.session_id) x)))
        ]
        | inr (e, here) ↦ elim (insert-cases k H row q s.refresh at_k) [
          | inl (f, y) ↦ absurd (unused h r here (same ∙ sym (ap (λ z. z.session_id) y)))
          | inr (f, there) ↦ live h k r q here there free_r free_q same
        ]
      ]
    where
      H : String
      H = hash_token sha256_hex req.refresh_token

      row : RefreshTokenRecord
      row = new_refresh H req.account_id req.session_id req.expires_at clock

  -- A live token behind a rotation is the new one, or another that was live before.
  rotated-live :
      (old_raw new_raw id : String) (account expires now : ℕ) (old : RefreshTokenRecord) (s : Store)
      (h : String) (r : RefreshTokenRecord)
      → lookup h (rotated sha256_hex old_raw new_raw id account expires now old s).refresh ≡ some r
      → is_none r.revoked_at ≡ true
      → ((hash_token sha256_hex new_raw ≡ h) × (r.session_id ≡ id))
        ⊎ ((hash_token sha256_hex old_raw ≢ h) × (lookup h s.refresh ≡ some r))
  unfolding rotated
  rotated-live old_raw new_raw id account expires now old s h r at_h free =
      elim (insert-cases h (hash_token sha256_hex new_raw) _ r _ at_h) [
        | inl (e, x) ↦ inl (e, sym (ap (λ z. z.session_id) x))
        | inr (e, inner) ↦
            elim (insert-cases h (hash_token sha256_hex old_raw) _ r s.refresh inner) [
              | inl (f, y) ↦ absurd (dead (ap (λ z. is_none z.revoked_at) y ∙ free))
              | inr (f, there) ↦ inr (f, there)
            ]
      ]
    where
      dead : false ≡ true → ⊥
      dead p = cc p

  rotated-SingleLive :
      (old_raw new_raw id : String) (account expires now : ℕ) (old : RefreshTokenRecord) (s : Store)
      → lookup (hash_token sha256_hex old_raw) s.refresh ≡ some old
      → old.session_id ≡ id
      → is_none old.revoked_at ≡ true
      → SingleLive s
      → SingleLive (rotated sha256_hex old_raw new_raw id account expires now old s)
  rotated-SingleLive old_raw new_raw id account expires now old s there owner free live h k r q at_h
        at_k free_r free_q same =
      elim (rotated-live old_raw new_raw id account expires now old s h r at_h free_r) [
        | inl (e, x) ↦
            elim (rotated-live old_raw new_raw id account expires now old s k q at_k free_q) [
              | inl (f, y) ↦ sym e ∙ f
              | inr (f, in_k) ↦
                  absurd (f (live _ k old q there in_k free free_q (owner ∙ sym x ∙ same)))
            ]
        | inr (e, in_h) ↦
            elim (rotated-live old_raw new_raw id account expires now old s k q at_k free_q) [
              | inl (f, y) ↦
                  absurd (e (live _ h old r there in_h free free_r (owner ∙ sym y ∙ sym same)))
              | inr (f, in_k) ↦ live h k r q in_h in_k free_r free_q same
            ]
      ]

  rotate-SingleLive :
      (old_raw new_raw id : String) (account expires now : ℕ) (s : Store)
      → SingleLive s
      → SingleLive (rotate_refresh_token sha256_hex old_raw new_raw id account expires now s).1
  rotate-SingleLive old_raw new_raw id account expires now s live =
      elim (rotate-cases sha256_hex old_raw new_raw id account expires now s) [
        | inl e ↦ subst (λ (r : Result (Unit {0}) × Store). SingleLive r.1) (sym e) live
        | inr (old, there, owner, free, e) ↦
            subst (λ (r : Result (Unit {0}) × Store). SingleLive r.1) (sym e)
              (rotated-SingleLive old_raw new_raw id account expires now old s there owner free
                live)
      ]

-- A revocation and a touch make no token live.
revoke-live :
    (id : String) (now : ℕ) (s : Store) (h : String) (r : RefreshTokenRecord)
    → lookup h (revoke_account_session id now s).refresh ≡ some r
    → is_none r.revoked_at ≡ true
    → lookup h s.refresh ≡ some r
unfolding revoke_account_session
revoke-live id now s h r at_h free =
    map_values-keeps (λ z. is_none z.revoked_at ≡ true → lookup h s.refresh ≡ some z)
      (revoke_of_session id now) h s.refresh kept r at_h free
  where
    kept :
        (v : RefreshTokenRecord)
        → lookup h s.refresh ≡ some v
        → is_none (revoke_of_session id now v).revoked_at ≡ true
        → lookup h s.refresh ≡ some (revoke_of_session id now v)
    kept v there free = elim (Bool-cases ((v.session_id == id) && is_none v.revoked_at)) [
      | inl a ↦ absurd (cc (rw a at free))
      | inr a ↦ rw a there
    ]

touch-refresh :
    (id : String) (now : ℕ) (s : Store) → (touch_account_session id now s).1.refresh ≡ s.refresh
touch-refresh id now s = elim (touch-cases id now s) [
  | inl e ↦ ap (λ (r : Result (Unit {0}) × Store). r.1.refresh) e
  | inr (row, there, a, e) ↦ ap (λ (r : Result (Unit {0}) × Store). r.1.refresh) e
]

-- The steps, each session created under an identifier that no token names yet.
pub data Reach (sha256_hex : String → String) (s : Store) : Store → Type 0 where
  here : Reach sha256_hex s s
  next_step :
      {t : Store}
      → Reach sha256_hex s t
      → (u : SessionStep)
      → ((req : CreateSessionRequest) (clock : ℕ) → u ≡ create req clock → Unused req.session_id t)
      → Reach sha256_hex s (take_step sha256_hex u t)

take_step-SingleLive :
    (sha256_hex : String → String) (u : SessionStep) (s : Store)
    → ((req : CreateSessionRequest) (clock : ℕ) → u ≡ create req clock → Unused req.session_id s)
    → SingleLive s
    → SingleLive (take_step sha256_hex u s)
take_step-SingleLive sha256_hex (create req clock) s unused live =
    create-SingleLive sha256_hex req clock s (unused req clock refl) live
take_step-SingleLive sha256_hex (touch id now) s unused live = λ h k r q at_h at_k.
    live h k r q (ap (lookup h) (sym (touch-refresh id now s)) ∙ at_h)
      (ap (lookup k) (sym (touch-refresh id now s)) ∙ at_k)
take_step-SingleLive sha256_hex (revoke id now) s unused live = λ h k r q at_h at_k free_r free_q.
    live h k r q (revoke-live id now s h r at_h free_r) (revoke-live id now s k q at_k free_q)
      free_r free_q
take_step-SingleLive sha256_hex (rotate old_raw new_raw id account expires now) s unused live =
    rotate-SingleLive sha256_hex old_raw new_raw id account expires now s live
take_step-SingleLive sha256_hex (revoke_all account now) s unused live =
    unfold admin_revoke_account_sessions in live

-- Whatever sessions are created, each under an identifier that no refresh token names yet, touched,
-- rotated, revoked, also all of an account at once, from the empty store, no session ever has two
-- refresh tokens that are not revoked.
pub Reach-SingleLive :
    (sha256_hex : String → String) (s : Store) → Reach sha256_hex new s → SingleLive s
unfolding new
Reach-SingleLive sha256_hex s here = λ h k r q at_h. absurd (cc at_h)
Reach-SingleLive sha256_hex s (next_step {t = t} past u unused) =
    take_step-SingleLive sha256_hex u t unused (Reach-SingleLive sha256_hex t past)
