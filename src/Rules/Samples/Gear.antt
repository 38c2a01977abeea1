-- ===== src/Rules/Samples/Gear.antt =====
-- The items and the equipment of the sample.
use aeon_backend.Base.{ℕ, Bool, List, [], ◌∷◌, String, true, false}
use aeon_backend.Base.Int.{ℤ, pos}
use aeon_backend.Base.Dict.{Dict}
use aeon_backend.Rules.Runtime.{float_one}
use aeon_backend.Rules.Types.{
  Item, AffixConfig, AffixPool, EquipmentTemplate, EquipmentRarity, EquipmentConfig,
}

abbrev pub item : String → String → Bool → Item
item item_id category is_equipment = record {
  item_id = item_id;
  display_name = item_id;
  category = category;
  rarity = pos 1;
  max_stack = pos 99;
  is_equipment = is_equipment;
  equip_slot = pos 0;
  weapon_type = pos 0;
  weapon_type_key = "";
  tradable = true;
  default_bind_type = "UNBOUND";
  buy_currency = pos 0;
  buy_price = pos 5;
  sell_price = pos 1;
  grant_gold = pos 0;
  grant_locked_aeb = pos 0;
}

abbrev pub item_rows : Dict String Item
item_rows =
    ("herb", item "herb" "material" false)
    ∷ ("stone", item "stone" "material" false)
    ∷ ("blade", item "blade" "weapon" true)
    ∷ []

abbrev affix : String → ℤ → AffixConfig
affix affix_id weight = record {
  affix_id = affix_id;
  stat = "attack";
  min = 1;
  max = 2;
  weight = weight;
  value_by_stage = [];
}

abbrev pub plain_pool : AffixPool
plain_pool = record {
  affix_pool_id = "plain";
  rolls = record { min = pos 1; max = pos 2 };
  affixes = affix "sharp" (pos 3) ∷ affix "dull" (pos 1) ∷ [];
}

abbrev per_rarity : ℤ → Dict ℤ ℤ
per_rarity gold =
    (pos 1, gold)
    ∷ (pos 2, gold)
    ∷ (pos 3, gold)
    ∷ (pos 4, gold)
    ∷ (pos 5, gold)
    ∷ (pos 6, gold)
    ∷ []

abbrev pub blade : ℕ → EquipmentTemplate
blade stage = record {
  item_id = "blade";
  series_id = "blades";
  stage = pos stage;
  equip_slot = pos 1;
  category = "weapon";
  weapon_type = pos 1;
  weapon_type_key = "sword";
  display_name = "Blade";
  affix_pool_id = "plain";
  base_flat = ("attack", float_one) ∷ [];
  base_percent = [];
  sell_price_gold = per_rarity (pos 10);
  npc_recycle_gold = per_rarity (pos 5);
}

abbrev templates : Dict String EquipmentTemplate
templates =
    ("blade", blade 1)
    ∷ ("blade5", record (blade 5) { item_id = "blade5" })
    ∷ ("blade10", record (blade 10) { item_id = "blade10" })
    ∷ ("blade15", record (blade 15) { item_id = "blade15" })
    ∷ ("blade20", record (blade 20) { item_id = "blade20" })
    ∷ ("blade25", record (blade 25) { item_id = "blade25" })
    ∷ ("blade30", record (blade 30) { item_id = "blade30" })
    ∷ []

abbrev per_stage {ℓ} : {V : Type ℓ} → V → Dict ℤ V
per_stage v =
    (pos 20, v)
    ∷ (pos 1, v)
    ∷ (pos 5, v)
    ∷ (pos 10, v)
    ∷ (pos 15, v)
    ∷ (pos 25, v)
    ∷ (pos 30, v)
    ∷ []

abbrev pub rare_row : EquipmentRarity
rare_row = record { name = "rare"; multiplier = float_one; affix_count = pos 3 }

abbrev ten : List ℤ
ten = pos 1 ∷ pos 2 ∷ pos 3 ∷ pos 4 ∷ pos 5 ∷ pos 6 ∷ pos 7 ∷ pos 8 ∷ pos 9 ∷ pos 10 ∷ []

abbrev pub equipment : EquipmentConfig
equipment = record {
  stage_multipliers = per_stage float_one;
  rarities =
      (pos 1, rare_row)
      ∷ (pos 2, rare_row)
      ∷ (pos 3, rare_row)
      ∷ (pos 4, rare_row)
      ∷ (pos 5, rare_row)
      ∷ (pos 6, rare_row)
      ∷ [];
  sell_price_gold_by_stage = [];
  npc_recycle_gold_by_stage = [];
  enhancement = record {
    max_level = pos 10;
    gold_cost_by_stage = per_stage ten;
    stone_item_by_stage = per_stage "stone";
    stone_base_cost_by_stage_rarity =
        per_stage (pos 1 ∷ pos 2 ∷ pos 3 ∷ pos 4 ∷ pos 5 ∷ pos 6 ∷ []);
    stone_progression_by_level = ten;
  };
  series = [];
  mounts = [];
  by_item_id = templates;
}
