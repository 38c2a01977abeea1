-- ===== src/Rules/Loot/Templates.antt =====
-- The equipment that a level-scaled loot entry may give: equipmentTemplatesByStageAndSeries and
-- rollLevelScaledEquipmentTemplate of internal/economy/rules/config.go.
use aeon_backend.Base.{
  ℕ, Bool, List, [], ◌∷◌, if◌then◌else◌, map, String, ◌==◌, ◌&&◌, ◌||◌, not, zero, suc, length,
  text_key, true, false,
}
use aeon_backend.Base.Int.{ℤ, pos, pos_part, int_key}
use aeon_backend.Base.Rows.{select}
use aeon_backend.Base.Text.{trim_space}
use aeon_backend.Base.Sorting.{sort_with, text_lt}
use aeon_backend.Rules.Outcome.{Outcome, panicked, returned, check, ◌>>=◌}
use aeon_backend.Rules.Runtime.{Runtime}
use aeon_backend.Rules.Types.{Config, EquipmentTemplate, LootEntry}
use aeon_backend.Rules.Draw.{draw}
use aeon_backend.Rules.Loot.Stages.{equipment_stage_for_level}

-- The set of the series that are named.
unfoldable pub allowed_series : List String → List String
allowed_series [] = []
allowed_series (series ∷ ids) =
    if trim_space series == "" then allowed_series ids else trim_space series ∷ allowed_series ids

unfoldable pub contains : String → List String → Bool
contains id [] = false
contains id (x ∷ xs) = x == id || contains id xs

abbrev pub is_empty {ℓ} : {A : Type ℓ} → List A → Bool
is_empty [] = true
is_empty (x ∷ xs) = false

-- The tests of the loop over the templates.
abbrev pub is_candidate : ℤ → List String → EquipmentTemplate → Bool
is_candidate stage allowed template =
    (template.stage == stage) && (is_empty allowed || contains template.series_id allowed)

-- `equipmentTemplatesByStageAndSeries`: the templates have distinct item ids, so that the order of
-- the map does not matter.
unfoldable pub templates_by_stage_and_series : Config → ℤ → List String → List EquipmentTemplate
unfolding allowed_series contains select sort_with
templates_by_stage_and_series c stage series =
    sort_with (λ (a b : EquipmentTemplate). text_lt a.item_id b.item_id)
      (select (is_candidate stage (allowed_series series))
        (map (λ row. row.1) c.equipment.by_item_id))

abbrev pub nth {ℓ} : {A : Type ℓ} → ℕ → List A → Outcome A
nth n [] = panicked
nth zero (x ∷ xs) = returned x
nth (suc n) (x ∷ xs) = nth n xs

-- `candidates[rng.IntN(len(candidates))]`
unfoldable pub choose {ℓ} : {A : Type ℓ} → Runtime → List A → ℕ → Outcome (A × ℕ)
choose go candidates rng = draw go (pos (length candidates)) rng >>= λ drawn.
    nth (pos_part drawn.0) candidates >>= λ chosen. returned (chosen, drawn.1)

-- `rollLevelScaledEquipmentTemplate`
unfoldable pub roll_level_scaled :
    Runtime → Config → LootEntry → ℤ → ℕ → Outcome (EquipmentTemplate × ℕ)
unfolding choose templates_by_stage_and_series equipment_stage_for_level
roll_level_scaled go c entry level rng =
    let candidates =
      templates_by_stage_and_series c (equipment_stage_for_level c level) entry.equipment_series in
    check (trim_space entry.equipment_stage_mode == "character_level_floor")
      "unsupported equipmentStageMode"
      (check (not (is_empty candidates)) "no level-scaled equipment candidates for stage"
        (choose go candidates rng))
