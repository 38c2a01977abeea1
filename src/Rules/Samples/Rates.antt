-- ===== src/Rules/Samples/Rates.antt =====
-- The numbers of the sample.
use aeon_backend.Base.{[], false}
use aeon_backend.Base.Int.{pos}
use aeon_backend.Rules.Types.{EconomyRules, MarketplaceConfig}

abbrev pub economy : EconomyRules
economy = record {
  version = "1";
  max_level = pos 30;
  level_exp_base = pos 10;
  level_exp_linear = pos 1;
  level_exp_quadratic = pos 1;
  default_token_cooldown_hours = pos 24;
  equipment_uid_prefix = "eq";
  bag_slots = pos 0;
  warehouse_slots = pos 0;
  bag_expand_slots = pos 0;
  bag_expand_max_times = pos 0;
  bag_expand_price_token = pos 0;
  bag_expand_payment_timeout_seconds = pos 0;
  trading_license_price_token = pos 0;
  trading_license_payment_timeout_seconds = pos 0;
  equipment_default_max_durability = pos 0;
  equipment_repair_cost_per_point_token = pos 0;
  equipment_repair_min_cost_token = pos 0;
  equipment_repair_burn_bps = pos 0;
  equipment_repair_recycle_bps = pos 0;
  equipment_repair_reward_bps = pos 0;
  equipment_dungeon_wear_points = pos 0;
  equipment_boss_wear_points = pos 0;
  nft_mint_fees_token_by_rarity = [];
  nft_mint_min_rarity = pos 0;
}

abbrev pub market : MarketplaceConfig
market = record {
  enabled = false;
  token_symbol = "AEB";
  min_list_price = pos 1;
  fee_bps = pos 0;
  fee_burn_bps = pos 0;
  fee_treasury_bps = pos 0;
  fee_rewards_bps = pos 0;
  listing_deposit_bps = pos 0;
  base_listing_slots = pos 0;
  material_expand_slots = pos 0;
  material_expand_max_times = pos 0;
  material_expand_item_id = "";
  material_expand_item_quantity = pos 0;
  wallet_expand_slots = pos 0;
  wallet_expand_max_times = pos 0;
  wallet_expand_price_token = pos 0;
  wallet_expand_payment_timeout_seconds = pos 0;
  max_listings_created_per_account_per_day = pos 0;
  max_cancels_per_account_per_day = pos 0;
  max_purchases_per_account_per_day = pos 0;
  purchase_cooldown_seconds = pos 0;
  daily_limit_timezone = "";
  default_cooldown_hours = pos 0;
}
