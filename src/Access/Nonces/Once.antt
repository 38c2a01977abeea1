-- ===== src/Access/Nonces/Once.antt =====
-- A nonce logs in at most once.
use aeon_backend.Store.{Store, WalletLoginNonce}
use aeon_backend.Base.{
  Bool-cases, Error, List, String, [], err, false, inl, inr, ltb, ok, refl, some, ℕ, ◌==◌, ◌∙◌, ◌∷◌,
  ◌≡◌, text_key, Option-cases, Result, ap, none, sym, ◌≢◌, subst,
}
use aeon_backend.Access.Nonces.{
  consume_wallet_nonce, put_nonce, view_row, wallet_nonce, consume_row,
}
use aeon_backend.Base.Dict.{lookup, lookup-insert, lookup-insert_self}

-- The nonce's row is there, and no longer pending.
pub record Spent (nonce : String) (s : Store) : Type 0 where
  pub row : WalletLoginNonce
  pub there : lookup nonce s.nonces ≡ some row
  pub over : (row.status == "PENDING") ≡ false

-- Later uses of the store's nonces, in any order.
pub data NonceUse : Type 0 where
  view consume : String → String → ℕ → NonceUse

abbrev pub use_nonce : NonceUse → Store → Store
use_nonce (view n w t) s = (wallet_nonce n w t s).1
use_nonce (consume n w t) s = (consume_wallet_nonce n w t s).1

abbrev pub use_nonces : List NonceUse → Store → Store
use_nonces [] s = s
use_nonces (u ∷ us) s = use_nonces us (use_nonce u s)

-- A write of a row that is not pending leaves spent nonces spent.
put-Spent :
    (n m : String) (row : WalletLoginNonce) (s : Store)
    → (row.status == "PENDING") ≡ false
    → Spent n s
    → Spent n (put_nonce m row s)
unfolding put_nonce
put-Spent n m row s over d = elim (Bool-cases (m == n)) [
  | inl same ↦ record {
    row = row;
    there = lookup-insert n m row s.nonces ∙ rw same refl;
    over = over;
  }
  | inr other ↦ record {
    row = d.row;
    there = lookup-insert n m row s.nonces ∙ rw other d.there;
    over = d.over;
  }
]

put-spends :
    (n : String) (row : WalletLoginNonce) (s : Store)
    → (row.status == "PENDING") ≡ false
    → Spent n (put_nonce n row s)
unfolding put_nonce
put-spends n row s over = record {
  row = row;
  there = lookup-insert_self n row s.nonces;
  over = over;
}

view_row-Spent :
    (n m w : String) (t : ℕ) (row : WalletLoginNonce) (s : Store)
    → Spent n s
    → Spent n (view_row m w t row s).1
unfolding view_row
view_row-Spent n m w t row s d = elim (Bool-cases (row.wallet == w)) [
  | inr a ↦ rw a d
  | inl a ↦ elim (Bool-cases (row.status == "PENDING")) [
    | inr b ↦ rw (a, b) d
    | inl b ↦ elim (Bool-cases (ltb t row.expires_at)) [
      | inl c ↦ rw (a, b, c) d
      | inr c ↦ rw (a, b, c) (put-Spent n m _ s refl d)
    ]
  ]
]

consume_row-Spent :
    (n m w : String) (t : ℕ) (row : WalletLoginNonce) (s : Store)
    → Spent n s
    → Spent n (consume_row m w t row s).1
unfolding consume_row
consume_row-Spent n m w t row s d = elim (Bool-cases (row.wallet == w)) [
  | inr a ↦ rw a d
  | inl a ↦ elim (Bool-cases (row.status == "PENDING")) [
    | inr b ↦ rw (a, b) d
    | inl b ↦ elim (Bool-cases (ltb t row.expires_at)) [
      | inl c ↦ rw (a, b, c) (put-Spent n m _ s refl d)
      | inr c ↦ rw (a, b, c) (put-Spent n m _ s refl d)
    ]
  ]
]

-- Each operation looks its nonce up first.
module _ (n w : String) (t : ℕ) (s : Store) where
  wallet_nonce-missing : lookup n s.nonces ≡ none → wallet_nonce n w t s ≡ (err Error.not_found, s)
  unfolding wallet_nonce
  wallet_nonce-missing e = rw (wallet_nonce, e) refl

  wallet_nonce-found :
      (row : WalletLoginNonce)
      → lookup n s.nonces ≡ some row
      → wallet_nonce n w t s ≡ view_row n w t row s
  unfolding wallet_nonce
  wallet_nonce-found row e = rw (wallet_nonce, e) refl

  consume-missing :
      lookup n s.nonces ≡ none → consume_wallet_nonce n w t s ≡ (err Error.not_found, s)
  unfolding consume_wallet_nonce
  consume-missing e = rw (consume_wallet_nonce, e) refl

  pub consume-found :
      (row : WalletLoginNonce)
      → lookup n s.nonces ≡ some row
      → consume_wallet_nonce n w t s ≡ consume_row n w t row s
  unfolding consume_wallet_nonce
  consume-found row e = rw (consume_wallet_nonce, e) refl

use_nonce-Spent : (n : String) (u : NonceUse) (s : Store) → Spent n s → Spent n (use_nonce u s)
use_nonce-Spent n (view m w t) s d = elim (Option-cases (lookup m s.nonces)) [
  | inl e ↦ moved (wallet_nonce-missing m w t s e) d
  | inr (row, e) ↦ moved (wallet_nonce-found m w t s row e) (view_row-Spent n m w t row s d)
]
  where
    moved : {q r : Result WalletLoginNonce × Store} → q ≡ r → Spent n r.1 → Spent n q.1
    moved e d = subst (λ (r : Result WalletLoginNonce × Store). Spent n r.1) (sym e) d
use_nonce-Spent n (consume m w t) s d = elim (Option-cases (lookup m s.nonces)) [
  | inl e ↦ moved (consume-missing m w t s e) d
  | inr (row, e) ↦ moved (consume-found m w t s row e) (consume_row-Spent n m w t row s d)
]
  where
    moved : {q r : Result (Unit {0}) × Store} → q ≡ r → Spent n r.1 → Spent n q.1
    moved e d = subst (λ (r : Result (Unit {0}) × Store). Spent n r.1) (sym e) d

use_nonces-Spent :
    (n : String) (us : List NonceUse) (s : Store) → Spent n s → Spent n (use_nonces us s)
use_nonces-Spent n [] s d = d
use_nonces-Spent n (u ∷ us) s d = use_nonces-Spent n us (use_nonce u s) (use_nonce-Spent n u s d)

abbrev the_error : Error → Result (Unit {0})
the_error e = err e

-- A successful consumption spends the nonce.
consume_row-spends :
    (n w : String) (t : ℕ) (row : WalletLoginNonce) (s : Store)
    → (consume_row n w t row s).0 ≡ ok tt
    → Spent n (consume_row n w t row s).1
unfolding consume_row
consume_row-spends n w t row s h = elim (Bool-cases (row.wallet == w)) [
  | inr a ↦ absurd (refused (rw a at h))
  | inl a ↦ elim (Bool-cases (row.status == "PENDING")) [
    | inr b ↦ absurd (refused (rw (a, b) at h))
    | inl b ↦ elim (Bool-cases (ltb t row.expires_at)) [
      | inl c ↦ rw (a, b, c) (put-spends n _ s refl)
      | inr c ↦ absurd (refused (rw (a, b, c) at h))
    ]
  ]
]
  where
    refused : {e : Error} → the_error e ≡ ok tt → ⊥
    refused h = cc h

consume-spends :
    (n w : String) (t : ℕ) (s : Store)
    → (consume_wallet_nonce n w t s).0 ≡ ok tt
    → Spent n (consume_wallet_nonce n w t s).1
consume-spends n w t s h = elim (Option-cases (lookup n s.nonces)) [
  | inl e ↦ absurd (cc (rw (consume-missing n w t s e) at h))
  | inr (row, e) ↦
      let q = consume-found n w t s row e in
      rw q (consume_row-spends n w t row s (sym (ap (λ r. r.0) q) ∙ h))
]

-- A spent nonce is not consumed.
Spent-refused :
    (n w : String) (t : ℕ) (s : Store) → Spent n s → (consume_wallet_nonce n w t s).0 ≢ ok tt
unfolding consume_row
Spent-refused n w t s d h =
    still d.over (sym (ap (λ r. r.0) (consume-found n w t s d.row d.there)) ∙ h)
  where
    still : (d.row.status == "PENDING") ≡ false → (consume_row n w t d.row s).0 ≡ ok tt → ⊥
    still b h = elim (Bool-cases (d.row.wallet == w)) [
      | inr a ↦ cc (rw a at h)
      | inl a ↦ cc (rw (a, b) at h)
    ]

-- Once a nonce has been consumed, no later consumption of it succeeds, for any wallet and at any
-- time, whatever other nonces are viewed and consumed in between.
pub consume_wallet_nonce-once :
    (n w w' : String) (t t' : ℕ) (us : List NonceUse) (s : Store)
    → (consume_wallet_nonce n w t s).0 ≡ ok tt
    → (consume_wallet_nonce n w' t' (use_nonces us (consume_wallet_nonce n w t s).1)).0 ≢ ok tt
consume_wallet_nonce-once n w w' t t' us s h =
    Spent-refused n w' t' (use_nonces us (consume_wallet_nonce n w t s).1)
      (use_nonces-Spent n us _ (consume-spends n w t s h))
