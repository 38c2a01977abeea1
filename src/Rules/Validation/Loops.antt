-- ===== src/Rules/Validation/Loops.antt =====
-- The loops of `validate`, of internal/economy/rules/config.go: a check of every row.
use aeon_backend.Base.{All, Bool, List, [], ◌∷◌, Eq, ◌≡◌, String}
use aeon_backend.Base.Dict.{Dict, lookup}
use aeon_backend.Rules.Outcome.{Outcome, returned, check, ◌>>=◌, >>=-returned}
use aeon_backend.Rules.Shops.{is_some}

module _ {ℓ} {A : Type ℓ} (test : A → Outcome (Unit {0})) where
  unfoldable pub each : List A → Outcome (Unit {0})
  each [] = returned tt
  each (x ∷ xs) = test x >>= λ done. each xs

  -- A loop that ends without an error has passed every row.
  pub each-All : (xs : List A) → each xs ≡ returned tt → All (λ x. test x ≡ returned tt) xs
  unfolding each
  each-All [] h = tt
  each-All (x ∷ xs) h =
      let first = >>=-returned (test x) (λ done. each xs) h in (first.1, each-All xs first.2)

-- `_, ok := m[k]`
abbrev pub has {ℓ κ} : {K : Type ℓ} {V : Type κ} ⦃e : Eq K⦄ → K → Dict K V → Bool
has k m = is_some (lookup k m)

abbrev pub require : Bool → String → Outcome (Unit {0})
require test why = check test why (returned tt)
