-- ===== src/Rules/Enhancement.antt =====
-- What an enhancement costs: EnhancementRule of internal/economy/rules/config.go.
pub mod Costs
use aeon_backend.Base.{
  ℕ, Bool, List, [], ◌∷◌, if◌then◌else◌, String, ◌==◌, ◌||◌, not, Option, none, some, zero, suc,
  length, text_key, ◌-◌, ltb, leb,
}
use aeon_backend.Base.Int.{ℤ, pos, negsuc, pos_part, leb_ℤ, ltb_ℤ, add64, int_key}
use aeon_backend.Base.Dict.{Dict, lookup}
use aeon_backend.Rules.Outcome.{Outcome, panicked, failed, returned, check, found_or, ◌>>=◌}
use aeon_backend.Rules.Types.{Config, EnhancementConfig, EquipmentTemplate}
use aeon_backend.Rules.Affixes.{equipment_template, equipment_rarity}
use aeon_backend.Rules.Draw.Keys.{or_else}

pub record EnhancementCost : Type 0 where
  pub gold : ℤ
  pub stone_item_id : String
  pub stone_quantity : ℤ

-- `xs[i-1]`: it panics where the index is out of range.
unfoldable pub element : List ℤ → ℤ → Outcome ℤ
element xs (negsuc n) = panicked
element xs (pos zero) = panicked
element [] (pos (suc n)) = panicked
element (x ∷ xs) (pos (suc zero)) = returned x
element (x ∷ xs) (pos (suc (suc n))) = element xs (pos (suc n))

abbrev pub shorter : List ℤ → ℤ → Bool
shorter xs n = ltb_ℤ (pos (length xs)) n

-- The stones of a level above five.
abbrev pub stone_cost : EnhancementConfig → EquipmentTemplate → ℤ → ℤ → ℤ → Outcome EnhancementCost
stone_cost e template rarity next_level gold =
    let stone = or_else "" (lookup template.stage e.stone_item_by_stage) in
    let base_costs = or_else [] (lookup template.stage e.stone_base_cost_by_stage_rarity) in
    check
      (not (
        stone == ""
        || shorter base_costs rarity
        || shorter e.stone_progression_by_level next_level))
      "missing enhancement stone cost"
      (element base_costs rarity >>= λ base.
        element e.stone_progression_by_level next_level >>= λ more.
        check (ltb_ℤ (pos 0) (add64 base more)) "invalid enhancement stone cost" (
          returned
            (record { gold = gold; stone_item_id = stone; stone_quantity = add64 base more })))

-- The test on the gold costs and the gold of the level.
abbrev pub gold_cost : List ℤ → ℤ → Outcome ℤ
gold_cost costs next_level =
    check (not (shorter costs next_level)) "missing gold enhancement cost" (
      element costs next_level >>= λ gold.
      check (not (ltb_ℤ gold (pos 0))) "missing gold enhancement cost" (returned gold))

abbrev pub template_cost : EnhancementConfig → EquipmentTemplate → ℤ → ℤ → Outcome EnhancementCost
template_cost e template rarity next_level =
    check (not (ltb_ℤ next_level (pos 1) || ltb_ℤ e.max_level next_level))
      "enhancement level is not available"
      (gold_cost (or_else [] (lookup template.stage e.gold_cost_by_stage)) next_level >>= λ gold.
        if leb_ℤ next_level (pos 5)
        then returned (record { gold = gold; stone_item_id = ""; stone_quantity = pos 0 })
        else stone_cost e template rarity next_level gold)

-- `EnhancementRule`
unfoldable pub enhancement_rule : Config → String → ℤ → ℤ → Outcome EnhancementCost
unfolding element
enhancement_rule c item_id rarity next_level =
    found_or (equipment_template c item_id) "equipment template is not configured" >>= λ template.
    found_or (equipment_rarity c rarity) "equipment rarity is not configured" >>= λ row.
    template_cost c.equipment.enhancement template rarity next_level
