-- ===== src/Rules/Types/Goods.antt =====
-- What is sold, drawn and asked for: items, shops, the lottery and bounties, of
-- internal/economy/rules/config.go. `int` and `int64` are integers of 64 bits; a JSON map is an
-- association list.
use aeon_backend.Base.{Bool, List, String, Option}
use aeon_backend.Base.Int.{ℤ}
use aeon_backend.Base.Dict.{Dict}

pub record Item : Type 0 where
  pub item_id : String
  pub display_name : String
  pub category : String
  pub rarity : ℤ
  pub max_stack : ℤ
  pub is_equipment : Bool
  pub equip_slot : ℤ
  pub weapon_type : ℤ
  pub weapon_type_key : String
  pub tradable : Bool
  pub default_bind_type : String
  pub buy_currency : ℤ
  pub buy_price : ℤ
  pub sell_price : ℤ
  pub grant_gold : ℤ
  pub grant_locked_aeb : ℤ

pub record ShopSellItem : Type 0 where
  pub slot_index : ℤ
  pub item_id : String
  pub min_level : ℤ
  pub max_level : ℤ
  pub rarity : ℤ
  pub buy_price : ℤ
  pub daily_limit : ℤ

pub record MysteryShopPoolEntry : Type 0 where
  pub item_id : String
  pub weight : ℤ
  pub quantity : ℤ
  pub rarity : ℤ
  pub min_level : ℤ
  pub max_level : ℤ
  pub base_gold : ℤ
  pub base_token : ℤ
  pub min_discount : ℤ

pub record MysteryShopSlot : Type 0 where
  pub slot_index : ℤ
  pub unlock_level : ℤ
  pub pools : List MysteryShopPoolEntry

pub record MysteryDiscount : Type 0 where
  pub bps : ℤ
  pub weight : ℤ

pub record MysteryShopConfig : Type 0 where
  pub manual_refresh_token_base_cost : ℤ
  pub manual_refresh_token_step_cost : ℤ
  pub manual_refresh_token_max_cost : ℤ
  pub daily_limit_timezone : String
  pub max_slots : ℤ
  pub slots : List MysteryShopSlot
  pub discounts : List MysteryDiscount

pub record Shop : Type 0 where
  pub shop_id : String
  pub display_name : String
  pub daily_limit_timezone : String
  pub sell_all_items : Bool
  pub sell_items : List ShopSellItem
  pub mystery : Option MysteryShopConfig

pub record LotteryConfig : Type 0 where
  pub price_aeb : ℤ
  pub max_count : ℤ
  pub category_weight : Dict String ℤ
  pub equipment_rarity_weight : Dict ℤ ℤ
  pub rare_material_item_ids : List String
  pub boss_ticket_item_ids : List String
  pub mount_item_ids : List String

pub record BountySlotConfig : Type 0 where
  pub slot_index : ℤ
  pub unlock_type : String
  pub gold_cost : ℤ
  pub aeb_price : ℤ

pub record BountyRefreshConfig : Type 0 where
  pub free_cooldown_seconds : ℤ
  pub gold_cost : ℤ
  pub premium_aeb_price : ℤ

pub record BountyTaskTemplate : Type 0 where
  pub template_id : String
  pub type : String
  pub difficulty : String
  pub item_id : String
  pub quantity_min : ℤ
  pub quantity_max : ℤ
  pub min_rarity : ℤ
  pub reward_item_id : String
  pub reward_quantity : ℤ
  pub weight : ℤ

pub record BountyBadgeReward : Type 0 where
  pub type : String
  pub item_id : String
  pub weight : ℤ
  pub min : ℤ
  pub max : ℤ

pub record BountyBadgeLottery : Type 0 where
  pub cost_item_id : String
  pub rewards : List BountyBadgeReward

pub record BountyConfig : Type 0 where
  pub slots : List BountySlotConfig
  pub refresh : BountyRefreshConfig
  pub task_templates : List BountyTaskTemplate
  pub badge_lottery : Dict String BountyBadgeLottery

pub record BountyTaskPlan : Type 0 where
  pub template_id : String
  pub type : String
  pub difficulty : String
  pub item_id : String
  pub min_rarity : ℤ
  pub required : ℤ
  pub reward_item_id : String
  pub reward_quantity : ℤ
