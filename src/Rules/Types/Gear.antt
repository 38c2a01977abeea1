-- ===== src/Rules/Types/Gear.antt =====
-- Equipment, its rarities, stages and affixes, of internal/economy/rules/config.go. A float64 is
-- kept as its bit pattern.
use aeon_backend.Base.{ℕ, List, String}
use aeon_backend.Base.Int.{ℤ}
use aeon_backend.Base.Dict.{Dict}

pub record EnhancementConfig : Type 0 where
  pub max_level : ℤ
  pub gold_cost_by_stage : Dict ℤ (List ℤ)
  pub stone_item_by_stage : Dict ℤ String
  pub stone_base_cost_by_stage_rarity : Dict ℤ (List ℤ)
  pub stone_progression_by_level : List ℤ

pub record EquipmentRarity : Type 0 where
  pub name : String
  pub multiplier : ℕ
  pub affix_count : ℤ

pub record EquipmentStageTemplate : Type 0 where
  pub stage : ℤ
  pub item_id : String
  pub prefix : String
  pub base_percent : Dict String ℕ
  pub sell_price_gold : Dict ℤ ℤ
  pub npc_recycle_gold : Dict ℤ ℤ

pub record EquipmentSeries : Type 0 where
  pub series_id : String
  pub equip_slot : ℤ
  pub category : String
  pub weapon_type : ℤ
  pub weapon_type_key : String
  pub display_type : String
  pub affix_pool_id : String
  pub base_flat : Dict String ℕ
  pub stages : List EquipmentStageTemplate

pub record EquipmentTemplate : Type 0 where
  pub item_id : String
  pub series_id : String
  pub stage : ℤ
  pub equip_slot : ℤ
  pub category : String
  pub weapon_type : ℤ
  pub weapon_type_key : String
  pub display_name : String
  pub affix_pool_id : String
  pub base_flat : Dict String ℕ
  pub base_percent : Dict String ℕ
  pub sell_price_gold : Dict ℤ ℤ
  pub npc_recycle_gold : Dict ℤ ℤ

pub record MountTemplate : Type 0 where
  pub item_id : String
  pub display_name : String
  pub equip_slot : ℤ
  pub final_hp_bps : ℤ
  pub final_atk_bps : ℤ
  pub move_speed_bps : ℤ

pub record EquipmentConfig : Type 0 where
  pub stage_multipliers : Dict ℤ ℕ
  pub rarities : Dict ℤ EquipmentRarity
  pub sell_price_gold_by_stage : Dict ℤ (Dict ℤ ℤ)
  pub npc_recycle_gold_by_stage : Dict ℤ (Dict ℤ ℤ)
  pub enhancement : EnhancementConfig
  pub series : List EquipmentSeries
  pub mounts : List MountTemplate
  pub by_item_id : Dict String EquipmentTemplate

pub record AffixRolls : Type 0 where
  pub min : ℤ
  pub max : ℤ

pub record AffixConfig : Type 0 where
  pub affix_id : String
  pub stat : String
  pub min : ℕ
  pub max : ℕ
  pub weight : ℤ
  pub value_by_stage : Dict ℤ (List ℕ)

pub record AffixPool : Type 0 where
  pub affix_pool_id : String
  pub rolls : AffixRolls
  pub affixes : List AffixConfig
