-- ===== src/Rules/Samples/Prizes.antt =====
-- The bounties and the lotteries of the sample.
use aeon_backend.Base.{[], ◌∷◌}
use aeon_backend.Base.Int.{pos}
use aeon_backend.Rules.Types.{BountySlotConfig, BountyTaskTemplate, BountyConfig, LotteryConfig}

abbrev slot : BountySlotConfig
slot = record { slot_index = pos 1; unlock_type = "free"; gold_cost = pos 0; aeb_price = pos 0 }

abbrev pub gather_task : BountyTaskTemplate
gather_task = record {
  template_id = "gather";
  type = "submit_item";
  difficulty = "normal";
  item_id = "herb";
  quantity_min = pos 2;
  quantity_max = pos 4;
  min_rarity = pos 0;
  reward_item_id = "stone";
  reward_quantity = pos 1;
  weight = pos 1;
}

abbrev pub bounties : BountyConfig
bounties = record {
  slots = slot ∷ slot ∷ slot ∷ slot ∷ slot ∷ [];
  refresh = record {
    free_cooldown_seconds = pos 3600;
    gold_cost = pos 1;
    premium_aeb_price = pos 1;
  };
  task_templates = gather_task ∷ [];
  badge_lottery = [];
}

-- The category of mounts has a weight, and there is no mount.
abbrev pub lottery : LotteryConfig
lottery = record {
  price_aeb = pos 10;
  max_count = pos 10;
  category_weight = ("mount", pos 1) ∷ [];
  equipment_rarity_weight = (pos 2, pos 1) ∷ [];
  rare_material_item_ids = "stone" ∷ [];
  boss_ticket_item_ids = [];
  mount_item_ids = [];
}

-- Only materials are drawn.
abbrev pub stocked_lottery : LotteryConfig
stocked_lottery = record lottery { category_weight = ("rare_material", pos 1) ∷ [] }
