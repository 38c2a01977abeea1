-- ===== src/Rules/Types/Places.antt =====
-- Where loot comes from: dungeon floors, gathering nodes, crops, bosses and recipes, of
-- internal/economy/rules/config.go, and the marketplace.
use aeon_backend.Base.{ℕ, Bool, List, String}
use aeon_backend.Base.Int.{ℤ}
use aeon_backend.Dungeon.Items.{DungeonCost, DungeonRewardGrant}

pub record DungeonFloor : Type 0 where
  pub chapter_id : ℤ
  pub floor_id : ℤ
  pub is_boss : Bool
  pub enter_cost : DungeonCost
  pub max_exp : ℤ
  pub loot_pool_id : String
  pub enemy_hp_scale : ℕ
  pub enemy_atk_scale : ℕ

pub record LootEntry : Type 0 where
  pub reward_type : String
  pub item_id : String
  pub quantity_min : ℤ
  pub quantity_max : ℤ
  pub drop_chance : ℕ
  pub rarity : ℤ
  pub affix_pool_id : String
  pub equipment_stage_mode : String
  pub equipment_series : List String

pub record LootPool : Type 0 where
  pub loot_pool_id : String
  pub entries : List LootEntry

pub record GatheringNode : Type 0 where
  pub node_id : String
  pub node_type : String
  pub loot_pool_id : String
  pub stamina_cost : ℤ
  pub respawn_seconds : ℤ

pub record Crop : Type 0 where
  pub crop_id : String
  pub seed_item_id : String
  pub growth_seconds : ℤ
  pub harvest_loot_pool_id : String

pub record BossContributionTier : Type 0 where
  pub min_contribution : ℤ
  pub bonus_loot_pool_id : String

pub record BossDefinition : Type 0 where
  pub boss_id : String
  pub display_name : String
  pub participation_loot_pool_id : String
  pub loot_pool_id : String
  pub contribution_tiers : List BossContributionTier

pub record RecipeMaterial : Type 0 where
  pub item_id : String
  pub quantity : ℤ

pub record Recipe : Type 0 where
  pub recipe_id : String
  pub display_name : String
  pub inputs : List RecipeMaterial
  pub outputs : List DungeonRewardGrant

pub record MarketplaceConfig : Type 0 where
  pub enabled : Bool
  pub token_symbol : String
  pub min_list_price : ℤ
  pub fee_bps : ℤ
  pub fee_burn_bps : ℤ
  pub fee_treasury_bps : ℤ
  pub fee_rewards_bps : ℤ
  pub listing_deposit_bps : ℤ
  pub base_listing_slots : ℤ
  pub material_expand_slots : ℤ
  pub material_expand_max_times : ℤ
  pub material_expand_item_id : String
  pub material_expand_item_quantity : ℤ
  pub wallet_expand_slots : ℤ
  pub wallet_expand_max_times : ℤ
  pub wallet_expand_price_token : ℤ
  pub wallet_expand_payment_timeout_seconds : ℤ
  pub max_listings_created_per_account_per_day : ℤ
  pub max_cancels_per_account_per_day : ℤ
  pub max_purchases_per_account_per_day : ℤ
  pub purchase_cooldown_seconds : ℤ
  pub daily_limit_timezone : String
  pub default_cooldown_hours : ℤ
