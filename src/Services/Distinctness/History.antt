-- ===== src/Services/Distinctness/History.antt =====
-- Every operation keeps service identities apart: CreateServiceIdentity, DisableServiceIdentity and
-- ConsumeServiceNonce of internal/platform/store/service_identities.go.
use aeon_backend.Base.{
  ℕ, Bool-cases, String, ◌==◌, ◌||◌, ◌≡◌, refl, inl, inr, some, none, Option, Error, Result, err,
  ok, text_key, ltb, Permᴰ,
}
use aeon_backend.Base.Dict.{Dict, lookup}
use aeon_backend.Base.Rows.{All-perm, All-lookup}
use aeon_backend.Base.Text.{trim_space}
use aeon_backend.Store.{Store, ServiceIdentity, new}
use aeon_backend.Services.Inputs.{Folding, CreateServiceIdentityInput, normalize, rune_count}
use aeon_backend.Services.{
  clash, new_identity, create_unless, create_new, create_checked, create_service_identity,
  disable_row, disable_service_identity, disabled_identity, identity_key,
}
use aeon_backend.Services.Nonces.{consume_service_nonce, take_nonce}
use aeon_backend.Services.Distinctness.{
  Apart, Clashes, one_key, one_subject, insert-Apart, clash-none, put_identity-Apart,
}

create-Apart :
    (fold : Folding) (visit : Dict String ServiceIdentity → Dict String ServiceIdentity)
    (input : CreateServiceIdentityInput) (clock : ℕ) (s : Store)
    → Permᴰ (visit s.service_identities) s.service_identities
    → Apart s.service_identities
    → Apart (create_service_identity fold visit input clock s).1.service_identities
unfolding create_service_identity
create-Apart fold visit input clock s order apart = inputs (normalize fold input)
  where
    unless :
        (o : Option Error) (i : CreateServiceIdentityInput)
        → clash i (visit s.service_identities) ≡ o
        → Apart (create_unless o i clock s).1.service_identities
    unless (some why) i e = apart
    unless none i e =
        let rows =
          All-perm (λ r. Clashes (new_identity i clock) r.1 → ⊥) order
            (clash-none i clock (visit s.service_identities) e) in
        put_identity-Apart i.service_id (new_identity i clock) i.created_by
          "service_identity_create" i.reason clock s
          (insert-Apart i.service_id (new_identity i clock) s.service_identities
            (λ j b there clashes. absurd (
              All-lookup (λ r. Clashes (new_identity i clock) r.1 → ⊥) j b s.service_identities rows
                there clashes))
            apart)

    unused :
        (o : Option ServiceIdentity) (i : CreateServiceIdentityInput)
        → Apart (create_new o visit i clock s).1.service_identities
    unused (some row) i = apart
    unused none i = unless (clash i (visit s.service_identities)) i refl

    inputs :
        (r : Result CreateServiceIdentityInput)
        → Apart (create_checked r visit clock s).1.service_identities
    inputs (err why) = apart
    inputs (ok i) = unused (lookup i.service_id s.service_identities) i

disable-Apart :
    (fold : Folding) (id admin reason : String) (clock : ℕ) (s : Store)
    → Apart s.service_identities
    → Apart (disable_service_identity fold id admin reason clock s).1.service_identities
unfolding disable_service_identity
disable-Apart fold id admin reason clock s apart =
    elim (Bool-cases (
      (trim_space admin == "")
      || (trim_space reason == "")
      || ltb 500 (rune_count (trim_space reason)))) [
        | inl t ↦ rw t apart
        | inr f ↦ rw f (rows (lookup (identity_key fold id) s.service_identities) refl)
      ]
  where
    weaker :
        (old b : ServiceIdentity)
        → Clashes (disabled_identity (trim_space admin) (trim_space reason) clock old) b
        → Clashes old b
    weaker old b (one_key e) = one_key e
    weaker old b (one_subject k l s x y) = cc x

    rows :
        (o : Option ServiceIdentity)
        → lookup (identity_key fold id) s.service_identities ≡ o
        → Apart
            (disable_row o
              (identity_key fold id)
              (trim_space admin)
              (trim_space reason)
              clock
              s).1.service_identities
    rows none e = apart
    rows (some old) e = elim (Bool-cases (old.status == "DISABLED")) [
      | inl t ↦ rw t apart
      | inr g ↦ rw g (
          put_identity-Apart (identity_key fold id)
            (disabled_identity (trim_space admin) (trim_space reason) clock old) (trim_space admin)
            "service_identity_disable" (trim_space reason) clock s
            (insert-Apart (identity_key fold id)
              (disabled_identity (trim_space admin) (trim_space reason) clock old)
              s.service_identities
              (λ j b there clashes.
                apart (identity_key fold id) j old b e there (weaker old b clashes))
              apart))
    ]

consume-Apart :
    (id nonce : String) (expires_at now : ℕ) (s : Store)
    → Apart s.service_identities
    → Apart (consume_service_nonce id nonce expires_at now s).1.service_identities
unfolding consume_service_nonce
consume-Apart id nonce expires_at now s apart =
    elim (Bool-cases ((trim_space id == "") || (trim_space nonce == ""))) [
      | inl t ↦ rw t apart
      | inr f ↦ rw f (taken _ _ _)
    ]
  where
    taken :
        (o : Option ℕ) (key : String) (rows : Dict String ℕ)
        → Apart (take_nonce o key expires_at rows s).1.service_identities
    taken (some e) key rows = apart
    taken none key rows = apart

-- The operations on service identities.
pub data ServiceStep (fold : Folding) (s : Store) : Store → Type 0 where
  creates :
      (visit : Dict String ServiceIdentity → Dict String ServiceIdentity)
      (input : CreateServiceIdentityInput) (clock : ℕ)
      → Permᴰ (visit s.service_identities) s.service_identities
      → ServiceStep fold s (create_service_identity fold visit input clock s).1
  disables :
      (id admin reason : String) (clock : ℕ)
      → ServiceStep fold s (disable_service_identity fold id admin reason clock s).1
  consumes :
      (id nonce : String) (expires_at now : ℕ)
      → ServiceStep fold s (consume_service_nonce id nonce expires_at now s).1

-- The stores that they reach from the new one.
pub data Reach (fold : Folding) : Store → Type 0 where
  start : Reach fold new
  next_step : {s t : Store} → Reach fold s → ServiceStep fold s t → Reach fold t

step-Apart :
    (fold : Folding) (s t : Store)
    → ServiceStep fold s t
    → Apart s.service_identities
    → Apart t.service_identities
step-Apart fold s _ (creates visit input clock order) h =
    create-Apart fold visit input clock s order h
step-Apart fold s _ (disables id admin reason clock) h =
    disable-Apart fold id admin reason clock s h
step-Apart fold s _ (consumes id nonce expires_at now) h = consume-Apart id nonce expires_at now s h

-- In every store that CreateServiceIdentity, DisableServiceIdentity and ConsumeServiceNonce reach from
-- the new one, in any order of calls and of the visits of the map, two identities with one public key
-- are the same identity, and so are two active game servers with one subject.
pub Reach-Apart : (fold : Folding) (s : Store) → Reach fold s → Apart s.service_identities
unfolding new
Reach-Apart fold _ start = λ i j a b at_i at_j clashes. cc
Reach-Apart fold _ (next_step {s} {t} reach step) =
    step-Apart fold s t step (Reach-Apart fold s reach)
