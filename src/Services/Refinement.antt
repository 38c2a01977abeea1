-- ===== src/Services/Refinement.antt =====
-- ConsumeServiceNonce, which drops the nonces that have expired, against a service that remembers
-- every nonce for ever.
use aeon_backend.Base.{
  ℕ, Bool-cases, List, [], ◌∷◌, String, ◌==◌, ◌||◌, ◌≤◌, ◌≡◌, refl, ◌∙◌, ap, arith, inl, inr, some,
  none, Option, ltb, Error, Result, err, ok, text_key, true, subst, if◌then◌else◌,
}
use aeon_backend.Base.Dict.{Dict, lookup, lookup-insert}
use aeon_backend.Base.Rows.{
  select, Distinct, Distinct-select, Distinct-insert, Absent, lookup-Absent,
}
use aeon_backend.Base.Text.{trim_space}
use aeon_backend.Store.{Store}
use aeon_backend.Services.Nonces.{consume_service_nonce, is_fresh, take_nonce}
use aeon_backend.Services.Replay.{NonceRequest, key_of, request}

-- When the last nonce that was accepted under a key expires.
abbrev pub Memory : Type 0
Memory = String → Option ℕ

-- An expiry that has not come yet.
abbrev pub pending : ℕ → Option ℕ → Option ℕ
pending now none = none
pending now (some expiry) = if ltb now expiry then some expiry else none

abbrev pub remember : String → ℕ → Memory → Memory
remember key expiry memory = λ k. if key == k then some expiry else memory k

abbrev pub accept_unless : Option ℕ → String → ℕ → Memory → Result (Unit {0}) × Memory
accept_unless (some expiry) key expires_at memory = (err Error.forbidden, memory)
accept_unless none key expires_at memory = (ok tt, remember key expires_at memory)

-- What the service promises: a nonce is refused while an earlier acceptance of it has not expired.
abbrev pub promise : NonceRequest → Memory → Result (Unit {0}) × Memory
promise r memory =
    if (trim_space r.service_id == "") || (trim_space r.nonce == "")
    then (err (Error.message "serviceId and nonce are required"), memory)
    else accept_unless (pending r.now (memory (key_of r))) (key_of r) r.expires_at memory

-- The results of a run of requests.
abbrev pub outcomes : List NonceRequest → Store → List (Result (Unit {0}))
outcomes [] s = []
outcomes (r ∷ rs) s =
    (consume_service_nonce r.service_id r.nonce r.expires_at r.now s).0 ∷ outcomes rs (request r s)

abbrev pub promises : List NonceRequest → Memory → List (Result (Unit {0}))
promises [] memory = []
promises (r ∷ rs) memory = (promise r memory).0 ∷ promises rs (promise r memory).1

-- The requests come at times that do not go back.
abbrev pub InOrder : ℕ → List NonceRequest → Type 0
InOrder since [] = Unit
InOrder since (r ∷ rs) = (since ≤ r.now) × InOrder r.now rs

lookup-select :
    (now : ℕ) (k : String) (m : Dict String ℕ)
    → Distinct m
    → lookup k (select (is_fresh now) m) ≡ pending now (lookup k m)
unfolding select
lookup-select now k [] distinct = refl
lookup-select now k ((j, e) ∷ m) distinct = elim (Bool-cases (j == k)) [
  | inl same ↦ elim (Bool-cases (ltb now e)) [
    | inl kept ↦ rw (same, kept) (rw same refl)
    | inr gone ↦ rw (same, gone) (lookup-select now k m distinct.1 ∙ ap (pending now) (absent same))
  ]
  | inr other ↦ elim (Bool-cases (ltb now e)) [
    | inl kept ↦ rw (other, kept) (rw other (lookup-select now k m distinct.1))
    | inr gone ↦ rw (other, gone) (lookup-select now k m distinct.1)
  ]
]
  where
    absent : (j == k) ≡ true → lookup k m ≡ none
    absent same =
        lookup-Absent k m (subst (λ i. Absent i m) ((text_key.agrees j k).0 same) distinct.0)

pending-pending :
    (now later : ℕ) (o : Option ℕ) → now ≤ later → pending later (pending now o) ≡ pending later o
pending-pending now later none h = refl
pending-pending now later (some e) h = ground arith

-- From a time on, the store and the memory agree on what is pending.
pub record Refines (since : ℕ) (s : Store) (memory : Memory) : Type 0 where
  pub distinct : Distinct s.service_nonces
  pub agree :
      (k : String) (now : ℕ)
      → since ≤ now
      → pending now (lookup k s.service_nonces) ≡ pending now (memory k)

take_nonce-Refines :
    (since : ℕ) (r : NonceRequest) (o : Option ℕ) (s : Store) (memory : Memory)
    → since ≤ r.now
    → Refines since s memory
    → ((take_nonce o (key_of r) r.expires_at (select (is_fresh r.now) s.service_nonces) s).0
        ≡ (accept_unless o (key_of r) r.expires_at memory).0)
      × Refines r.now
          (take_nonce o (key_of r) r.expires_at (select (is_fresh r.now) s.service_nonces) s).1
          (accept_unless o (key_of r) r.expires_at memory).1
take_nonce-Refines since r o s memory order refines = taken o
  where
    kept :
        (k : String) (now : ℕ)
        → r.now ≤ now
        → pending now (lookup k (select (is_fresh r.now) s.service_nonces)) ≡ pending now (memory k)
    kept k now later =
        ap (pending now) (lookup-select r.now k s.service_nonces refines.distinct)
        ∙ pending-pending r.now now (lookup k s.service_nonces) later
        ∙ refines.agree k now (omega (arith, order, later))

    fresh_distinct : Distinct (select (is_fresh r.now) s.service_nonces)
    fresh_distinct = Distinct-select (is_fresh r.now) s.service_nonces refines.distinct

    taken :
        (o : Option ℕ)
        → ((take_nonce o (key_of r) r.expires_at (select (is_fresh r.now) s.service_nonces) s).0
            ≡ (accept_unless o (key_of r) r.expires_at memory).0)
          × Refines r.now
              (take_nonce o (key_of r) r.expires_at (select (is_fresh r.now) s.service_nonces) s).1
              (accept_unless o (key_of r) r.expires_at memory).1
    taken (some e) = (refl, record { distinct = fresh_distinct; agree = kept })
    taken none = (
      refl,
      record {
        distinct =
            Distinct-insert (key_of r) r.expires_at (select (is_fresh r.now) s.service_nonces)
              fresh_distinct;
        agree = λ k now later. elim (Bool-cases (key_of r == k)) [
          | inl same ↦
              ap (pending now)
                (lookup-insert k (key_of r) r.expires_at (select (is_fresh r.now) s.service_nonces))
              ∙ rw same refl
          | inr other ↦
              ap (pending now)
                (lookup-insert k (key_of r) r.expires_at (select (is_fresh r.now) s.service_nonces))
              ∙ rw other (kept k now later)
        ];
      },
    )

consume-Refines :
    (since : ℕ) (r : NonceRequest) (s : Store) (memory : Memory)
    → since ≤ r.now
    → Refines since s memory
    → ((consume_service_nonce r.service_id r.nonce r.expires_at r.now s).0 ≡ (promise r memory).0)
      × Refines r.now (request r s) (promise r memory).1
unfolding consume_service_nonce
consume-Refines since r s memory order refines =
    elim (Bool-cases ((trim_space r.service_id == "") || (trim_space r.nonce == ""))) [
      | inl t ↦
          rw (request, t)
            (
              refl,
              record {
                distinct = refines.distinct;
                agree = λ k now later. refines.agree k now (omega (arith, order, later));
              },
            )
      | inr f ↦
          rw (request, f)
            (rw seen (
              take_nonce-Refines since r (pending r.now (memory (key_of r))) s memory order
                refines))
    ]
  where
    seen :
        lookup (key_of r) (select (is_fresh r.now) s.service_nonces)
        ≡ pending r.now (memory (key_of r))
    seen =
        lookup-select r.now (key_of r) s.service_nonces refines.distinct
        ∙ refines.agree (key_of r) r.now order

run-Refines :
    (since : ℕ) (rs : List NonceRequest) (s : Store) (memory : Memory)
    → InOrder since rs
    → Refines since s memory
    → outcomes rs s ≡ promises rs memory
run-Refines since [] s memory order refines = refl
run-Refines since (r ∷ rs) s memory order refines =
    let one = consume-Refines since r s memory order.0 refines in
    ap (λ o. o ∷ outcomes rs (request r s)) one.0
    ∙ ap (λ os. (promise r memory).0 ∷ os)
        (run-Refines r.now rs (request r s) (promise r memory).1 order.1 one.1)

-- A run of `ConsumeServiceNonce`, at times that do not go back, answers every request as a service does
-- that never forgets a nonce, and refuses one as long as its last acceptance has not expired: that the
-- code drops the nonces that have expired is not to be seen.
pub outcomes-promises :
    (rs : List NonceRequest) (s : Store) (since : ℕ)
    → Distinct s.service_nonces
    → InOrder since rs
    → outcomes rs s ≡ promises rs (λ k. lookup k s.service_nonces)
outcomes-promises rs s since distinct order =
    run-Refines since rs s (λ k. lookup k s.service_nonces) order
      (record { distinct = distinct; agree = λ k now later. refl })
