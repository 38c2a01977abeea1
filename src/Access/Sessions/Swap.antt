-- ===== src/Access/Sessions/Swap.antt =====
-- What a rotation swaps.
use aeon_backend.Base.{
  Error, String, ap, arith, err, false, inl, inr, ltb, ok, refl, some, sym, true, ℕ, ◌∙◌, ◌≡◌, ◌≢◌,
  ◌≤◌, Result, text_key,
}
use aeon_backend.Access.Sessions.{
  hash_token, is_none, lookup_refresh_token, new_refresh, revoke_refresh, rotate_refresh_token,
  rotated,
}
use aeon_backend.Base.Dict.{lookup, lookup-insert_ne, lookup-insert_self, insert}
use aeon_backend.Access.Sessions.Steps.{rotate-cases}
use aeon_backend.Store.{RefreshTokenRecord, Store}

module _ (sha256_hex : String → String) (raw : String) (t : ℕ) (row : RefreshTokenRecord)
    (s : Store) (there : lookup (hash_token sha256_hex raw) s.refresh ≡ some row) where
  lookup-revoked :
      is_none row.revoked_at ≡ false → lookup_refresh_token sha256_hex raw t s ≡ err Error.forbidden
  unfolding lookup_refresh_token
  lookup-revoked dead = rw (lookup_refresh_token, there, dead) refl

  lookup-live :
      is_none row.revoked_at ≡ true
      → ltb row.expires_at t ≡ false
      → lookup_refresh_token sha256_hex raw t s ≡ ok row
  unfolding lookup_refresh_token
  lookup-live free fresh = rw (lookup_refresh_token, there, free, fresh) refl

-- After a rotation that goes through, to a token of another hash, the old token is forbidden at any
-- time, and the new one is accepted until it expires.
pub rotate_refresh_token-swaps :
    (sha256_hex : String → String) (old_raw new_raw id : String) (account expires now : ℕ)
    (s : Store)
    → hash_token sha256_hex old_raw ≢ hash_token sha256_hex new_raw
    → (rotate_refresh_token sha256_hex old_raw new_raw id account expires now s).0 ≡ ok tt
    → let later = (rotate_refresh_token sha256_hex old_raw new_raw id account expires now s).1 in
      ((t : ℕ) → lookup_refresh_token sha256_hex old_raw t later ≡ err Error.forbidden)
      × ((t : ℕ)
          → t ≤ expires
          → lookup_refresh_token sha256_hex new_raw t later
            ≡ ok (new_refresh (hash_token sha256_hex new_raw) account id expires now))
unfolding rotated
rotate_refresh_token-swaps sha256_hex old_raw new_raw id account expires now s apart done =
    elim (rotate-cases sha256_hex old_raw new_raw id account expires now s) [
      | inl e ↦ absurd (refused (sym (ap (λ r. r.0) e) ∙ done))
      | inr (old, there, owner, free, e) ↦
          let after = rotated sha256_hex old_raw new_raw id account expires now old s in
          (
            λ t.
                ap (λ r. lookup_refresh_token sha256_hex old_raw t r.1) e
                ∙ lookup-revoked sha256_hex old_raw t (revoke_refresh now old) after (at_old old)
                    refl,
            λ t le.
                ap (λ r. lookup_refresh_token sha256_hex new_raw t r.1) e
                ∙ lookup-live sha256_hex new_raw t
                    (new_refresh (hash_token sha256_hex new_raw) account id expires now) after
                    (at_new old) refl (ground arith),
          )
    ]
  where
    the_error : Error → Result (Unit {0})
    the_error e = err e

    refused : {e : Error} → the_error e ≡ ok tt → ⊥
    refused p = cc p

    at_new :
        (old : RefreshTokenRecord)
        → lookup
            (hash_token sha256_hex new_raw)
            (rotated sha256_hex old_raw new_raw id account expires now old s).refresh
          ≡ some (new_refresh (hash_token sha256_hex new_raw) account id expires now)
    at_new old =
        lookup-insert_self {K = String} (hash_token sha256_hex new_raw)
          (new_refresh (hash_token sha256_hex new_raw) account id expires now)
          (insert (hash_token sha256_hex old_raw) (revoke_refresh now old) s.refresh)

    at_old :
        (old : RefreshTokenRecord)
        → lookup
            (hash_token sha256_hex old_raw)
            (rotated sha256_hex old_raw new_raw id account expires now old s).refresh
          ≡ some (revoke_refresh now old)
    at_old old =
        lookup-insert_ne {K = String} (hash_token sha256_hex old_raw)
          (hash_token sha256_hex new_raw)
          (new_refresh (hash_token sha256_hex new_raw) account id expires now)
          (insert (hash_token sha256_hex old_raw) (revoke_refresh now old) s.refresh)
          (λ p. apart (sym p))
        ∙ lookup-insert_self {K = String} (hash_token sha256_hex old_raw) (revoke_refresh now old)
            s.refresh
