-- ===== src/Rules/Types.antt =====
-- The configuration of internal/economy/rules/config.go, as loaded from its JSON files.
mod Goods
mod Gear
mod Places
pub use Goods.*
pub use Gear.*
pub use Places.*
use aeon_backend.Base.{String}
use aeon_backend.Base.Int.{ℤ}
use aeon_backend.Base.Dict.{Dict}

pub record EconomyRules : Type 0 where
  pub version : String
  pub max_level : ℤ
  pub level_exp_base : ℤ
  pub level_exp_linear : ℤ
  pub level_exp_quadratic : ℤ
  pub default_token_cooldown_hours : ℤ
  pub equipment_uid_prefix : String
  pub bag_slots : ℤ
  pub warehouse_slots : ℤ
  pub bag_expand_slots : ℤ
  pub bag_expand_max_times : ℤ
  pub bag_expand_price_token : ℤ
  pub bag_expand_payment_timeout_seconds : ℤ
  pub trading_license_price_token : ℤ
  pub trading_license_payment_timeout_seconds : ℤ
  pub equipment_default_max_durability : ℤ
  pub equipment_repair_cost_per_point_token : ℤ
  pub equipment_repair_min_cost_token : ℤ
  pub equipment_repair_burn_bps : ℤ
  pub equipment_repair_recycle_bps : ℤ
  pub equipment_repair_reward_bps : ℤ
  pub equipment_dungeon_wear_points : ℤ
  pub equipment_boss_wear_points : ℤ
  pub nft_mint_fees_token_by_rarity : Dict ℤ ℤ
  pub nft_mint_min_rarity : ℤ

pub record Config : Type 0 where
  pub dir : String
  pub items : Dict String Item
  pub shops : Dict String Shop
  pub floors : Dict String DungeonFloor
  pub loot_pools : Dict String LootPool
  pub affix_pools : Dict String AffixPool
  pub gather_nodes : Dict String GatheringNode
  pub crops : Dict String Crop
  pub bosses : Dict String BossDefinition
  pub recipes : Dict String Recipe
  pub marketplace : MarketplaceConfig
  pub rules : EconomyRules
  pub equipment : EquipmentConfig
  pub lottery : LotteryConfig
  pub bounties : BountyConfig
