-- ===== src/Rules/Affixes/Eligible.antt =====
-- One pick of `weightedEligibleAffix`, of internal/economy/rules/config.go: a row with a positive
-- weight whose key has been picked less than twice, or none.
use aeon_backend.Base.{
  ℕ, Bool, Option, none, some, List, [], ◌∷◌, ◌&&◌, String, text_key, Bool-cases, inl, inr, true,
  false, All, ◌≡◌, refl, arith, ◌⊎◌,
}
use aeon_backend.Base.Int.{ℤ, pos, leb_ℤ, ltb_ℤ, int_key, IsInt64, ◌≤ℤ◌, ◌<ℤ◌}
use aeon_backend.Base.Dict.{Dict}
use aeon_backend.Base.Rows.{All-map}
use aeon_backend.Rules.Outcome.{returned}
use aeon_backend.Rules.Runtime.{Runtime}
use aeon_backend.Rules.Types.{AffixConfig}
use aeon_backend.Rules.Draw.{total_weight}
use aeon_backend.Rules.Draw.Keys.{weight_of}
use aeon_backend.Rules.Draw.Weighted.{Weighs, pick_weighted_lem}
use aeon_backend.Rules.Affixes.{eligible, affix_weight, weighted_eligible_affix}

abbrev pub Among : {A : Type 0} → A → List A → Type 0
Among a [] = ⊥
Among a (x ∷ xs) = (a ≡ x) ⊎ Among a xs

All-Among : {A : Type 0} (xs : List A) → All (λ x. Among x xs) xs
All-Among [] = tt
All-Among (x ∷ xs) = (inl refl, All-map _ _ (λ y h. inr h) xs (All-Among xs))

-- Every weight is an int64.
abbrev pub Weights : List AffixConfig → Type 0
Weights rows = All (λ row. IsInt64 (affix_weight row)) rows

-- What `weightedEligibleAffix` may return.
abbrev pub Picked : Dict String ℤ → List AffixConfig → Option AffixConfig → Type 0
Picked counts rows none = Unit
Picked counts rows (some row) = (eligible counts row ≡ true) × Among row rows

Weighs-eligible :
    (counts : Dict String ℤ) (row : AffixConfig)
    → IsInt64 (affix_weight row)
    → Weighs (eligible counts) affix_weight row
Weighs-eligible counts row fits t =
    positive (affix_weight row) (ltb_ℤ (weight_of counts row.affix_id) (pos 2)) fits t
  where
    positive :
        (w : ℤ) (b : Bool)
        → IsInt64 w
        → (ltb_ℤ (pos 0) w && b) ≡ true
        → (pos 0 ≤ℤ w) × (w <ℤ pos 9223372036854775808)
    positive w b fits t = ground arith

pub weighted_eligible_affix_lem :
    (go : Runtime) (rows : List AffixConfig) (counts : Dict String ℤ) (rng : ℕ)
    → Weights rows
    → (o : Option AffixConfig) × (rng' : ℕ) × (weighted_eligible_affix go rows counts rng
        ≡ returned (o, rng'))
      × Picked counts rows o
unfolding weighted_eligible_affix
weighted_eligible_affix_lem go rows counts rng fits =
    elim (Bool-cases (leb_ℤ (total_weight (eligible counts) affix_weight (pos 0) rows) (pos 0))) [
      | inl t ↦ (none, rng, rw t refl, tt)
      | inr f ↦
          let picked =
            pick_weighted_lem (eligible counts) affix_weight (λ row. Among row rows) go rows rng
              (All-map _ _ (Weighs-eligible counts) rows fits) (All-Among rows)
              (positive (total_weight (eligible counts) affix_weight (pos 0) rows) f) in
          (some picked.0, picked.1, rw f picked.2, (picked.3, picked.5))
    ]
  where
    positive : (w : ℤ) → leb_ℤ w (pos 0) ≡ false → pos 0 <ℤ w
    positive w f = ground arith
