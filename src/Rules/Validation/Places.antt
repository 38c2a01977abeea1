-- ===== src/Rules/Validation/Places.antt =====
-- The checks of loot pools, gathering nodes, crops, bosses, recipes and the marketplace in `validate`
-- of internal/economy/rules/config.go.
use aeon_backend.Base.{Bool, if◌then◌else◌, String, ◌==◌, ◌||◌, not, text_key, List, ℕ}
use aeon_backend.Base.Int.{int_key, ℤ}
use aeon_backend.Base.Text.{trim_space}
use aeon_backend.Dungeon.Items.{DungeonRewardGrant}
use aeon_backend.Rules.Outcome.{Outcome, returned, check, ◌>>=◌}
use aeon_backend.Rules.Runtime.{Runtime}
use aeon_backend.Rules.Types.{Config, LootEntry, GatheringNode, Crop, BossDefinition, Recipe}
use aeon_backend.Rules.Loot.Templates.{is_empty, templates_by_stage_and_series}
use aeon_backend.Rules.Validation.Loops.{each, has, require}

abbrev pub validate_candidates : Config → List String → ℤ × ℕ → Outcome (Unit {0})
validate_candidates c series row =
    require (not (is_empty (templates_by_stage_and_series c row.0 series)))
      "loot pool has no level-scaled equipment candidates for stage"

-- The checks of an entry with a stage mode.
abbrev pub validate_level_scaled : Runtime → Config → LootEntry → Outcome (Unit {0})
validate_level_scaled go c entry =
    check (go.lower (trim_space entry.reward_type) == "equipment")
      "loot pool item uses equipmentStageMode with another reward type"
      (check (has entry.rarity c.equipment.rarities)
        "loot pool level-scaled equipment has unknown rarity"
        (check (trim_space entry.equipment_stage_mode == "character_level_floor")
          "loot pool item has unsupported equipmentStageMode"
          (each (validate_candidates c entry.equipment_series) c.equipment.stage_multipliers)))

-- One entry of a loot pool.
abbrev pub validate_loot_entry : Runtime → Config → LootEntry → Outcome (Unit {0})
validate_loot_entry go c entry =
    let fixed = trim_space entry.equipment_stage_mode == "" in
    (if fixed then returned tt else validate_level_scaled go c entry) >>= λ done.
    check
      ((go.lower (trim_space entry.reward_type) == "token")
        || not fixed
        || has entry.item_id c.items)
      "loot pool references unknown item"
      (require ((entry.affix_pool_id == "") || has entry.affix_pool_id c.affix_pools)
        "loot pool references unknown affix pool")

-- The loops over the loot pools and their entries.
unfoldable pub validate_loot_pools : Runtime → Config → Outcome (Unit {0})
unfolding each templates_by_stage_and_series
validate_loot_pools go c = each (λ row. each (validate_loot_entry go c) row.1.entries) c.loot_pools

abbrev pub validate_node : Config → GatheringNode → Outcome (Unit {0})
validate_node c node =
    require (has node.loot_pool_id c.loot_pools) "gathering node references unknown loot pool"

abbrev pub validate_crop : Config → Crop → Outcome (Unit {0})
validate_crop c crop = check (has crop.seed_item_id c.items) "crop references unknown seed item" (
    require (has crop.harvest_loot_pool_id c.loot_pools)
      "crop references unknown harvest loot pool")

-- The loops over the gathering nodes and the crops.
unfoldable pub validate_activities : Config → Outcome (Unit {0})
unfolding each
validate_activities c = each (λ row. validate_node c row.1) c.gather_nodes >>= λ done.
    each (λ row. validate_crop c row.1) c.crops

-- A pool that is named is configured.
abbrev pub named_pool : Config → String → Bool
named_pool c pool_id = (pool_id == "") || has pool_id c.loot_pools

abbrev pub validate_boss : Config → BossDefinition → Outcome (Unit {0})
validate_boss c boss =
    check (named_pool c boss.participation_loot_pool_id)
      "boss references unknown participation loot pool"
      (check (named_pool c boss.loot_pool_id) "boss references unknown loot pool" (
        each
          (λ tier.
            require (named_pool c tier.bonus_loot_pool_id) "boss references unknown tier loot pool")
          boss.contribution_tiers))

-- The loop over the bosses.
unfoldable pub validate_bosses : Config → Outcome (Unit {0})
unfolding each
validate_bosses c = each (λ row. validate_boss c row.1) c.bosses

abbrev pub validate_output : Runtime → Config → DungeonRewardGrant → Outcome (Unit {0})
validate_output go c output =
    check ((go.lower output.reward_type == "token") || has output.item_id c.items)
      "recipe references unknown output item"
      (require ((output.affix_pool_id == "") || has output.affix_pool_id c.affix_pools)
        "recipe references unknown affix pool")

abbrev pub validate_recipe : Runtime → Config → Recipe → Outcome (Unit {0})
validate_recipe go c recipe =
    each (λ input. require (has input.item_id c.items) "recipe references unknown input item")
      recipe.inputs
    >>= λ done. each (validate_output go c) recipe.outputs

-- The loop over the recipes.
unfoldable pub validate_recipes : Runtime → Config → Outcome (Unit {0})
unfolding each
validate_recipes go c = each (λ row. validate_recipe go c row.1) c.recipes

-- The check of the marketplace.
unfoldable pub validate_marketplace : Config → Outcome (Unit {0})
validate_marketplace c =
    let named = trim_space c.marketplace.material_expand_item_id in
    require
      (not c.marketplace.enabled
        || has (if named == "" then "market_stall_permit" else named) c.items)
      "marketplace materialExpandItemId is not configured in items.json"
