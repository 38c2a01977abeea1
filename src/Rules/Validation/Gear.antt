-- ===== src/Rules/Validation/Gear.antt =====
-- The checks of equipment, enhancement and affix pools in `validate`, with validateAffixPool, of
-- internal/economy/rules/config.go.
use aeon_backend.Base.{ℕ, List, [], ◌∷◌, ◌==◌, ◌&&◌, ◌||◌, not, text_key, length, nat_key, String}
use aeon_backend.Base.Int.{ℤ, pos, leb_ℤ, ltb_ℤ, int_key}
use aeon_backend.Base.Dict.{lookup}
use aeon_backend.Base.Text.{trim_space}
use aeon_backend.Rules.Outcome.{Outcome, check, ◌>>=◌}
use aeon_backend.Rules.Runtime.{float_le, float_lt, float_zero}
use aeon_backend.Rules.Types.{
  Config, EquipmentTemplate, EquipmentRarity, MountTemplate, AffixPool, AffixConfig,
}
use aeon_backend.Rules.Draw.{total_weight}
use aeon_backend.Rules.Draw.Keys.{all_count, or_else, validate_weights}
use aeon_backend.Rules.Affixes.{affix_weight}
use aeon_backend.Rules.Loot.Templates.{is_empty}
use aeon_backend.Rules.Validation.Loops.{each, has, require}

abbrev pub validate_stage : ℤ × ℕ → Outcome (Unit {0})
validate_stage row =
    require (not (leb_ℤ row.0 (pos 0) || float_le row.1 float_zero))
      "equipment stage multipliers must be positive"

abbrev pub validate_rarity : ℤ × EquipmentRarity → Outcome (Unit {0})
validate_rarity row =
    require
      (not (
        leb_ℤ row.0 (pos 0)
        || float_le row.1.multiplier float_zero
        || leb_ℤ row.1.affix_count (pos 0)))
      "equipment rarities must have positive multiplier and affixCount"

abbrev pub validate_sell_price : Config → ℤ × ℤ → Outcome (Unit {0})
validate_sell_price c row =
    require (has row.0 c.equipment.rarities && ltb_ℤ (pos 0) row.1)
      "equipment template has invalid sellPriceGold"

abbrev pub validate_recycle : Config → ℤ × ℤ → Outcome (Unit {0})
validate_recycle c row =
    require (has row.0 c.equipment.rarities && leb_ℤ (pos 0) row.1)
      "equipment template has invalid npcRecycleGold"

-- One round of the loop over the templates.
abbrev pub validate_template : Config → EquipmentTemplate → Outcome (Unit {0})
validate_template c template =
    check (has template.stage c.equipment.stage_multipliers)
      "equipment template has unsupported stage"
      (check (has template.affix_pool_id c.affix_pools)
        "equipment template references unknown affix pool"
        (check (length template.sell_price_gold == 6)
          "equipment template must define six sellPriceGold values"
          (each (validate_sell_price c) template.sell_price_gold >>= λ done.
            check (length template.npc_recycle_gold == 6)
              "equipment template must define six npcRecycleGold values"
              (each (validate_recycle c) template.npc_recycle_gold))))

abbrev pub validate_mount : MountTemplate → Outcome (Unit {0})
validate_mount mount =
    require
      ((mount.equip_slot == pos 7)
        && (mount.final_hp_bps == pos 500)
        && (mount.final_atk_bps == pos 500)
        && (mount.move_speed_bps == pos 2500))
      "mount must use the fixed current mount bonuses"

-- The loops over stages, rarities, templates and mounts.
unfoldable pub validate_equipment : Config → Outcome (Unit {0})
unfolding each float_le
validate_equipment c =
    check ((length c.equipment.stage_multipliers == 7) && (length c.equipment.rarities == 6))
      "equipment_templates.json must define seven stages and six rarities"
      (each validate_stage c.equipment.stage_multipliers >>= λ stages.
        each validate_rarity c.equipment.rarities >>= λ rarities.
        each (λ row. validate_template c row.1) c.equipment.by_item_id >>= λ templates.
        each validate_mount c.equipment.mounts)

abbrev pub validate_stage_costs : Config → ℤ → Outcome (Unit {0})
validate_stage_costs c stage =
    let e = c.equipment.enhancement in
    check
      ((pos (length (or_else [] (lookup stage e.gold_cost_by_stage))) == e.max_level)
        && (length (or_else [] (lookup stage e.stone_base_cost_by_stage_rarity))
            == length c.equipment.rarities))
      "equipment enhancement is incomplete for stage"
      (require (has (or_else "" (lookup stage e.stone_item_by_stage)) c.items)
        "equipment enhancement stage references unknown stone")

-- The checks of the enhancement.
unfoldable pub validate_enhancement : Config → Outcome (Unit {0})
unfolding each
validate_enhancement c =
    let e = c.equipment.enhancement in
    check ((e.max_level == pos 10) && (pos (length e.stone_progression_by_level) == e.max_level))
      "equipment enhancement must define the current +10 progression"
      (each (λ row. validate_stage_costs c row.0) c.equipment.stage_multipliers)

abbrev pub validate_value : ℕ → Outcome (Unit {0})
validate_value value =
    require (not (float_lt value float_zero)) "affix has negative configured value"

abbrev pub validate_stage_values : ℕ → ℤ × List ℕ → Outcome (Unit {0})
validate_stage_values rarities row =
    check (not (leb_ℤ row.0 (pos 0)) && (length row.1 == rarities))
      "affix must define one value per rarity at every stage" (each validate_value row.1)

abbrev pub validate_affix : ℕ → AffixConfig → Outcome (Unit {0})
validate_affix rarities affix =
    check
      (not (
        (trim_space affix.affix_id == "")
        || (trim_space affix.stat == "")
        || ltb_ℤ affix.weight (pos 0)))
      "contains invalid affix identity or weight"
      (each (validate_stage_values rarities) affix.value_by_stage)

-- `validateAffixPool`
unfoldable pub validate_affix_pool : ℕ → AffixPool → Outcome (Unit {0})
unfolding each total_weight validate_weights float_lt
validate_affix_pool rarities pool =
    validate_weights {K = String}
      (("pool", total_weight all_count affix_weight (pos 0) pool.affixes) ∷ [])
    >>= λ done. each (validate_affix rarities) pool.affixes

-- The loop over the affix pools.
unfoldable pub validate_affix_pools : Config → Outcome (Unit {0})
unfolding each validate_affix_pool
validate_affix_pools c =
    each
      (λ row.
        check (not (is_empty row.1.affixes)) "affix pool has no affixes"
          (validate_affix_pool (length c.equipment.rarities) row.1))
      c.affix_pools
