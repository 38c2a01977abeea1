-- ===== src/Services/Tests.antt =====
-- Runs of the operations on service identities.
use mathlib.Core.List.Permᴰ
use aeon_backend.Base.{[], ◌∷◌, refl, ◌≡◌, ◌≢◌, ok, err, Error, arith, text_key}
use aeon_backend.Base.Dict.{lookup}
use aeon_backend.Base.Text.{trim_space}
use aeon_backend.Store.{Store, new}
use aeon_backend.Services.{new_identity, create_service_identity, disable_service_identity}
use aeon_backend.Services.Nonces.{consume_service_nonce}
use aeon_backend.Services.Inputs.{Folding, CreateServiceIdentityInput}
use aeon_backend.Services.Distinctness.{Apart}
use aeon_backend.Services.Distinctness.History.{
  Reach, start, next_step, creates, disables, Reach-Apart,
}
use aeon_backend.Services.Replay.{NonceRequest, request, requests, consume_service_nonce-once}
use aeon_backend.Services.Refinement.{outcomes, promises, outcomes-promises}

-- The texts are in the case that is wanted.
abbrev as_it_is : Folding
as_it_is = record { lower = λ s. s; upper = λ s. s }

abbrev worker : CreateServiceIdentityInput
worker = record {
  service_id = "unlocks";
  name = "Unlocks";
  kind = "WORKER";
  subject_id = "";
  public_key = "11111111111111111111111111111111";
  capabilities = "economy.worker" ∷ [];
  created_by = "admin";
  reason = "setup";
}

abbrev renamed_worker : CreateServiceIdentityInput
renamed_worker = record worker { service_id = "unlocks2" }

abbrev with_worker : Store
with_worker = (create_service_identity as_it_is (λ m. m) worker 5 new).1

abbrev without_worker : Store
without_worker = (disable_service_identity as_it_is "unlocks" "admin" "retired" 9 with_worker).1

with_worker_reached : Reach as_it_is without_worker
with_worker_reached =
    next_step (next_step start (creates (λ m. m) worker 5 (Permᴰ.refl _)))
      (disables "unlocks" "admin" "retired" 9)

Reach-Apart_example : Apart without_worker.service_identities
Reach-Apart_example = Reach-Apart as_it_is without_worker with_worker_reached

abbrev hello : NonceRequest
hello = record { service_id = "unlocks"; nonce = "n1"; expires_at = 100; now = 10 }

abbrev other : NonceRequest
other = record { service_id = "unlocks"; nonce = "n2"; expires_at = 20; now = 15 }

abbrev replayed : NonceRequest
replayed = record { service_id = " unlocks"; nonce = "n1"; expires_at = 200; now = 50 }

hello_accepted : (consume_service_nonce "unlocks" "n1" 100 10 new).0 ≡ ok tt
unfolding consume_service_nonce trim_space new
hello_accepted = refl

consume_service_nonce-once_example :
    (consume_service_nonce " unlocks" "n1" 200 50 (requests (other ∷ []) (request hello new))).0
    ≢ ok tt
unfolding trim_space
consume_service_nonce-once_example =
    consume_service_nonce-once hello replayed (other ∷ []) new hello_accepted (omega arith, tt)
      (omega arith) refl

outcomes_example :
    outcomes (hello ∷ other ∷ replayed ∷ []) new
    ≡ promises (hello ∷ other ∷ replayed ∷ []) (λ k. lookup k new.service_nonces)
unfolding new
outcomes_example =
    outcomes-promises (hello ∷ other ∷ replayed ∷ []) new 0 tt
      (omega arith, (omega arith, (omega arith, tt)))

-- The third request is a replay.
replay_refused :
    outcomes (hello ∷ other ∷ replayed ∷ []) new ≡ ok tt ∷ ok tt ∷ err Error.forbidden ∷ []
unfolding consume_service_nonce trim_space new
replay_refused = refl

worker_created :
    (create_service_identity as_it_is (λ m. m) worker 5 new).0 ≡ ok (new_identity worker 5)
unfolding create_service_identity new trim_space
worker_created = refl

-- The key is taken.
again_refused :
    (create_service_identity as_it_is (λ m. m) renamed_worker 6 with_worker).0
    ≡ err (Error.message "public key already registered")
unfolding create_service_identity new trim_space
again_refused = refl
