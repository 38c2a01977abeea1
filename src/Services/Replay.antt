-- ===== src/Services/Replay.antt =====
-- A nonce of a service is not used twice before it expires.
use mathlib.Core.Option.{some-injective}
use aeon_backend.Base.{
  ℕ, Bool-cases, List, [], ◌∷◌, String, ◌==◌, ◌||◌, ◌<◌, ◌≤◌, ◌≡◌, ◌≢◌, refl, sym, ◌∙◌, ap, arith,
  inl, inr, some, none, Option, ltb, All, ok, text_key, true, subst,
}
use aeon_backend.Base.Dict.{Dict, lookup, lookup-insert, lookup-insert_self}
use aeon_backend.Base.Rows.{select}
use aeon_backend.Base.Text.{trim_space}
use aeon_backend.Store.{Store}
use aeon_backend.Services.Nonces.{consume_service_nonce, is_fresh, nonce_key, take_nonce}

-- What the loop over the nonces keeps: a key whose row has not expired.
lookup-select_fresh :
    (now : ℕ) (k : String) (m : Dict String ℕ) (expiry : ℕ)
    → lookup k m ≡ some expiry
    → now < expiry
    → lookup k (select (is_fresh now) m) ≡ some expiry
unfolding select
lookup-select_fresh now k [] expiry h fresh = cc
lookup-select_fresh now k ((j, e) ∷ m) expiry h fresh = elim (Bool-cases (j == k)) [
  | inl same ↦
      let found : some e ≡ some expiry = rw same at h in
      let kept : ltb now e ≡ true = is_kept e (some-injective e expiry found) in
      rw kept (rw same found)
  | inr other ↦ elim (Bool-cases (ltb now e)) [
    | inl kept ↦ rw kept (rw other (lookup-select_fresh now k m expiry (rw other at h) fresh))
    | inr gone ↦ rw gone (lookup-select_fresh now k m expiry (rw other at h) fresh)
  ]
]
  where
    is_kept : (e : ℕ) → e ≡ expiry → ltb now e ≡ true
    is_kept e q = ground arith

-- The nonce of a key is held, and expires at a time or later.
pub record Held (k : String) (until : ℕ) (s : Store) : Type 0 where
  pub expiry : ℕ
  pub there : lookup k s.service_nonces ≡ some expiry
  pub late : until ≤ expiry

-- A use of a nonce.
pub record NonceRequest : Type 0 where
  pub service_id : String
  pub nonce : String
  pub expires_at : ℕ
  pub now : ℕ

abbrev pub request : NonceRequest → Store → Store
request r s = (consume_service_nonce r.service_id r.nonce r.expires_at r.now s).1

abbrev pub requests : List NonceRequest → Store → Store
requests [] s = s
requests (r ∷ rs) s = requests rs (request r s)

-- The key of a request.
abbrev pub key_of : NonceRequest → String
key_of r = nonce_key (trim_space r.service_id) (trim_space r.nonce)

abbrev fresh_rows : NonceRequest → Store → Dict String ℕ
fresh_rows r s = select (is_fresh r.now) s.service_nonces

take_nonce-Held :
    (k : String) (until : ℕ) (o : Option ℕ) (key : String) (expires_at expiry : ℕ)
    (rows : Dict String ℕ) (s : Store)
    → lookup key rows ≡ o
    → lookup k rows ≡ some expiry
    → until ≤ expiry
    → Held k until (take_nonce o key expires_at rows s).1
take_nonce-Held k until (some e) key expires_at expiry rows s at_key held late = record {
  expiry = expiry;
  there = held;
  late = late;
}
take_nonce-Held k until none key expires_at expiry rows s at_key held late =
    elim (Bool-cases (key == k)) [
      | inl same ↦ absurd (missing (ap (λ j. lookup j rows) ((text_key.agrees key k).0 same)))
      | inr other ↦ record {
        expiry = expiry;
        there = lookup-insert k key expires_at rows ∙ rw other held;
        late = late;
      }
    ]
  where
    missing : lookup key rows ≡ lookup k rows → ⊥
    missing same = cc

-- A nonce that is held stays held, at times before it expires.
request-Held :
    (k : String) (until : ℕ) (r : NonceRequest) (s : Store)
    → r.now < until
    → Held k until s
    → Held k until (request r s)
unfolding consume_service_nonce
request-Held k until r s early held =
    elim (Bool-cases ((trim_space r.service_id == "") || (trim_space r.nonce == ""))) [
      | inl t ↦ rw (request, t) held
      | inr f ↦
          rw (request, f)
            (take_nonce-Held k until (lookup (key_of r) (fresh_rows r s)) (key_of r) r.expires_at
              held.expiry (fresh_rows r s) s refl
              (lookup-select_fresh r.now k s.service_nonces held.expiry held.there
                (omega (arith, held.late)))
              held.late)
    ]

requests-Held :
    (k : String) (until : ℕ) (rs : List NonceRequest) (s : Store)
    → All (λ (r : NonceRequest). r.now < until) rs
    → Held k until s
    → Held k until (requests rs s)
requests-Held k until [] s early held = held
requests-Held k until (r ∷ rs) s early held =
    requests-Held k until rs (request r s) early.1 (request-Held k until r s early.0 held)

-- A request that succeeds holds its nonce until it expires.
request-holds :
    (r : NonceRequest) (s : Store)
    → (consume_service_nonce r.service_id r.nonce r.expires_at r.now s).0 ≡ ok tt
    → Held (key_of r) r.expires_at (request r s)
unfolding consume_service_nonce
request-holds r s h =
    elim (Bool-cases ((trim_space r.service_id == "") || (trim_space r.nonce == ""))) [
      | inl t ↦ absurd (cc (rw t at h))
      | inr f ↦ rw (request, f) (taken (lookup (key_of r) (fresh_rows r s)) (rw f at h))
    ]
  where
    taken :
        (o : Option ℕ)
        → (take_nonce o (key_of r) r.expires_at (fresh_rows r s) s).0 ≡ ok tt
        → Held (key_of r) r.expires_at (take_nonce o (key_of r) r.expires_at (fresh_rows r s) s).1
    taken (some e) k = cc
    taken none k = record {
      expiry = r.expires_at;
      there = lookup-insert_self (key_of r) r.expires_at (fresh_rows r s);
      late = omega arith;
    }

-- A nonce that is held is refused.
Held-refused :
    (until : ℕ) (r : NonceRequest) (s : Store)
    → r.now < until
    → Held (key_of r) until s
    → (consume_service_nonce r.service_id r.nonce r.expires_at r.now s).0 ≢ ok tt
unfolding consume_service_nonce
Held-refused until r s early held h =
    elim (Bool-cases ((trim_space r.service_id == "") || (trim_space r.nonce == ""))) [
      | inl t ↦ cc (rw t at h)
      | inr f ↦
          refused (lookup (key_of r) (fresh_rows r s))
            (lookup-select_fresh r.now (key_of r) s.service_nonces held.expiry held.there
              (omega (arith, held.late)))
            (rw f at h)
    ]
  where
    refused :
        (o : Option ℕ)
        → o ≡ some held.expiry
        → (take_nonce o (key_of r) r.expires_at (fresh_rows r s) s).0 ≡ ok tt
        → ⊥
    refused none e k = cc
    refused (some e') e k = cc k

-- Once `ConsumeServiceNonce` has accepted a nonce of a service, it accepts no request with the same
-- nonce of the same service before the time at which the first one said that it expires, whatever
-- other requests are made before that time in between.
pub consume_service_nonce-once :
    (first again : NonceRequest) (between : List NonceRequest) (s : Store)
    → (consume_service_nonce first.service_id first.nonce first.expires_at first.now s).0 ≡ ok tt
    → All (λ (r : NonceRequest). r.now < first.expires_at) between
    → again.now < first.expires_at
    → key_of again ≡ key_of first
    → (consume_service_nonce again.service_id again.nonce again.expires_at again.now
        (requests between (request first s))).0
      ≢ ok tt
consume_service_nonce-once first again between s accepted early before same =
    Held-refused first.expires_at again (requests between (request first s)) before (
      subst (λ k. Held k first.expires_at (requests between (request first s))) (sym same)
        (requests-Held (key_of first) first.expires_at between (request first s) early
          (request-holds first s accepted)))
