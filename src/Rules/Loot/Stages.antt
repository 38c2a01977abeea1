-- ===== src/Rules/Loot/Stages.antt =====
-- The equipment stage for a character's level: equipmentStageForCharacterLevel of
-- internal/economy/rules/config.go.
pub mod Choice
use aeon_backend.Base.{
  List, [], ◌∷◌, if◌then◌else◌, map, All, Bool-cases, inl, inr, ℕ, ◌≢◌, arith, refl, subst, sym,
  ◌≡◌, ◌⊎◌, Bool, false, true,
}
use aeon_backend.Base.Int.{ℤ, pos, ltb_ℤ, leb_ℤ, ◌≤ℤ◌, ◌<ℤ◌}
use aeon_backend.Base.Sorting.{
  sort_with, Ascending, All-sort_with, insert_with, All-unsort_with, Ascending-sort,
}
use aeon_backend.Rules.Types.{Config}
use aeon_backend.Base.Rows.{All-map}

-- The loop over the stages, with its `break`.
unfoldable pub select_stage : ℤ → ℤ → List ℤ → ℤ
select_stage level selected [] = selected
select_stage level selected (stage ∷ stages) =
    let rest = select_stage level stage stages in if ltb_ℤ level stage then selected else rest

abbrev pub stage_of : ℤ → List ℤ → ℤ
stage_of level [] = pos 1
stage_of level (stage ∷ stages) =
    if leb_ℤ level (pos 0) then stage else select_stage level stage (stage ∷ stages)

abbrev pub sorted_stages : Config → List ℤ
sorted_stages c = sort_with ltb_ℤ (map (λ row. row.0) c.equipment.stage_multipliers)

-- `equipmentStageForCharacterLevel`
unfoldable pub equipment_stage_for_level : Config → ℤ → ℤ
unfolding select_stage sort_with
equipment_stage_for_level c level = stage_of level (sorted_stages c)
