-- ===== src/Rules/Samples/Places.antt =====
-- The floors, the loot and the boss of the sample.
use aeon_backend.Base.{ℕ, [], ◌∷◌, String, zero, suc, ◌+◌, ◌/◌, ◌%◌, ◌-◌, nat_eq}
use aeon_backend.Base.Int.{ℤ, pos}
use aeon_backend.Base.Dict.{Dict}
use aeon_backend.Dungeon.Items.{InventoryItem}
use aeon_backend.Rules.Runtime.{float_one}
use aeon_backend.Rules.Types.{DungeonFloor, LootEntry, LootPool, BossDefinition}
use aeon_backend.Rules.Validation.Floors.{key_of_floor}

abbrev ticket : String → InventoryItem
ticket item_id = record {
  id = pos 0;
  item_id = item_id;
  quantity = pos 1;
  slot = pos 0;
  durability = pos 0;
  enhance_level = pos 0;
}

abbrev floor : ℕ → DungeonFloor
floor n = record {
  chapter_id = pos ((n - 1) / 10);
  floor_id = pos n;
  is_boss = nat_eq (n % 10) 0;
  enter_cost = record {
    gold = pos 0;
    items =
        ticket "boss_ticket_ashen_threshold"
        ∷ ticket "boss_ticket_gloomwood"
        ∷ ticket "boss_ticket_voidscar"
        ∷ [];
  };
  max_exp = pos 100;
  loot_pool_id = "chest";
  enemy_hp_scale = float_one;
  enemy_atk_scale = float_one;
}

abbrev pub floors_from : ℕ → ℕ → Dict String DungeonFloor
floors_from n zero = []
floors_from n (suc left) = (key_of_floor n, floor n) ∷ floors_from (n + 1) left

abbrev entry : String → String → ℤ → LootEntry
entry reward_type item_id rarity = record {
  reward_type = reward_type;
  item_id = item_id;
  quantity_min = pos 1;
  quantity_max = pos 3;
  drop_chance = float_one;
  rarity = rarity;
  affix_pool_id = "";
  equipment_stage_mode = "";
  equipment_series = [];
}

-- An entry that gives equipment for the level of the character.
abbrev scaled_entry : LootEntry
scaled_entry = record (entry "equipment" "" (pos 2)) {
  equipment_stage_mode = "character_level_floor";
}

abbrev pub chest : LootPool
chest = record {
  loot_pool_id = "chest";
  entries = entry "item" "herb" (pos 0) ∷ entry "token" "" (pos 0) ∷ scaled_entry ∷ [];
}

-- A boss with three pools.
abbrev pub boss : BossDefinition
boss = record {
  boss_id = "ogre";
  display_name = "Ogre";
  participation_loot_pool_id = "chest";
  loot_pool_id = "chest";
  contribution_tiers = record { min_contribution = pos 10; bonus_loot_pool_id = "chest" } ∷ [];
}
