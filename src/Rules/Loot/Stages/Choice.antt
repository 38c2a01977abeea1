-- ===== src/Rules/Loot/Stages/Choice.antt =====
-- The stage that equipmentStageForCharacterLevel of internal/economy/rules/config.go chooses.
use aeon_backend.Base.{
  List, [], ◌∷◌, map, All, Bool-cases, inl, inr, ℕ, ◌≢◌, refl, subst, sym, ◌≡◌, ◌⊎◌,
}
use aeon_backend.Base.Int.{ℤ, pos, ltb_ℤ, leb_ℤ, ◌≤ℤ◌, ◌<ℤ◌}
use aeon_backend.Base.Sorting.{sort_with, All-sort_with, insert_with}
use aeon_backend.Rules.Types.{Config}
use aeon_backend.Rules.Loot.Stages.{select_stage, stage_of, equipment_stage_for_level}

-- The selection is among the stages.
select_stage-All {κ} :
    (P : ℤ → Type κ) (level selected : ℤ) (stages : List ℤ)
    → P selected
    → All P stages
    → P (select_stage level selected stages)
unfolding select_stage
select_stage-All P level selected [] p h = p
select_stage-All P level selected (stage ∷ stages) p h = elim (Bool-cases (ltb_ℤ level stage)) [
  | inl t ↦ rw t p
  | inr f ↦ rw f (select_stage-All P level stage stages h.0 h.1)
]

stage_of-All {κ} :
    (P : ℤ → Type κ) (level stage : ℤ) (stages : List ℤ)
    → All P (stage ∷ stages)
    → P (stage_of level (stage ∷ stages))
stage_of-All P level stage stages h = elim (Bool-cases (leb_ℤ level (pos 0))) [
  | inl t ↦ rw t h.0
  | inr f ↦ rw f (select_stage-All P level stage (stage ∷ stages) h.0 h)
]

inserted : (x : ℤ) (xs : List ℤ) → (y : ℤ) × (ys : List ℤ) × (insert_with ltb_ℤ x xs ≡ y ∷ ys)
unfolding insert_with
inserted x [] = (x, [], refl)
inserted x (y ∷ ys) = elim (Bool-cases (ltb_ℤ y x)) [
  | inl t ↦ (y, insert_with ltb_ℤ x ys, rw t refl)
  | inr f ↦ (x, y ∷ ys, rw f refl)
]

sorted-cons : (x : ℤ) (xs : List ℤ) → (y : ℤ) × (ys : List ℤ) × (sort_with ltb_ℤ (x ∷ xs) ≡ y ∷ ys)
unfolding sort_with
sorted-cons x xs = inserted x (sort_with ltb_ℤ xs)

-- What holds of every stage that is configured, of which there is one, holds of the one that is chosen.
pub equipment_stage_for_level-All {κ} :
    (P : ℤ → Type κ) (c : Config) (level : ℤ)
    → c.equipment.stage_multipliers ≢ []
    → All P (map (λ (row : ℤ × ℕ). row.0) c.equipment.stage_multipliers)
    → P (equipment_stage_for_level c level)
unfolding equipment_stage_for_level
equipment_stage_for_level-All P c level some_stage h =
    found c.equipment.stage_multipliers some_stage h
  where
    found :
        (m : List (ℤ × ℕ))
        → m ≢ []
        → All P (map (λ (row : ℤ × ℕ). row.0) m)
        → P (stage_of level (sort_with ltb_ℤ (map (λ (row : ℤ × ℕ). row.0) m)))
    found [] n k = absurd (n refl)
    found (row ∷ rows) n k =
        let keys = map (λ (row : ℤ × ℕ). row.0) rows in
        let sorted = sorted-cons row.0 keys in
        let all = All-sort_with ltb_ℤ P (row.0 ∷ keys) k in
        subst (λ l. P (stage_of level l)) (sym sorted.2)
          (stage_of-All P level sorted.0 sorted.1 (subst (All P) sorted.2 all))

-- The level reaches the selection, and no stage that it reaches is above the selection.
abbrev pub Reaches : ℤ → List ℤ → ℤ → Type 0
Reaches level stages s = (s ≤ℤ level) × All (λ t. t ≤ℤ level → t ≤ℤ s) stages

-- The stage is reached, and no configured stage that the level reaches is above it; or the level does
-- not reach it, and it is the least.
abbrev pub Suits : ℤ → List ℤ → ℤ → Type 0
Suits level stages s = Reaches level stages s ⊎ ((level <ℤ s) × All (λ t. s ≤ℤ t) stages)
