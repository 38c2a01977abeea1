-- ===== src/Rules/Loot/Pools.antt =====
-- lootPoolRewards, itemRarity and itemCategory of internal/economy/rules/config.go.
use aeon_backend.Base.{
  ℕ, Bool, List, [], ◌∷◌, ◌++◌, if◌then◌else◌, String, ◌==◌, Option, none, some, zero, suc, ◌+◌,
  text_key, false,
}
use aeon_backend.Base.Int.{ℤ, pos, pos_part, leb_ℤ, ltb_ℤ, add64}
use aeon_backend.Base.Dict.{Dict, lookup}
use aeon_backend.Base.Text.{trim_space}
use aeon_backend.Dungeon.Items.{DungeonRewardGrant, DungeonRewardPlan}
use aeon_backend.Rules.Outcome.{Outcome, failed, returned, found_or, ◌>>=◌}
use aeon_backend.Rules.Runtime.{Runtime, float_lt, float_one}
use aeon_backend.Rules.Types.{Config, Item, LootEntry}
use aeon_backend.Rules.Draw.{roll_quantity}
use aeon_backend.Rules.Affixes.{roll_reward_affixes}
use aeon_backend.Rules.Names.{seed, equipment_uid}
use aeon_backend.Rules.Loot.Templates.{roll_level_scaled}

-- `itemRarity`: an item that is not configured has rarity zero.
abbrev pub configured_rarity : Option Item → ℤ
configured_rarity none = pos 0
configured_rarity (some item) = item.rarity

unfoldable pub item_rarity : Dict String Item → String → ℤ → ℤ
item_rarity items item_id fallback =
    if ltb_ℤ (pos 0) fallback then fallback else configured_rarity (lookup item_id items)

abbrev pub configured_category : Option Item → String
configured_category none = ""
configured_category (some item) = item.category

-- `itemCategory`
unfoldable pub item_category : Dict String Item → String → String
item_category items item_id =
    let category = configured_category (lookup item_id items) in
    if category == "" then "misc" else category

abbrev pub no_plan : DungeonRewardPlan
no_plan = record { is_boss = false; items = []; token_reward = pos 0 }

abbrev pub item_grant : Config → String → ℤ → ℤ → DungeonRewardGrant
item_grant c item_id quantity rarity = record {
  reward_type = "item";
  item_id = item_id;
  quantity = quantity;
  equipment_uid = "";
  rarity = item_rarity c.items item_id rarity;
  category = item_category c.items item_id;
  affix_pool_id = "";
  affixes = [];
}

-- The item that an equipment entry gives: its own, or one for the level of the character.
abbrev pub entry_item : Runtime → Config → LootEntry → ℤ → ℕ → Outcome (String × ℕ)
entry_item go c entry level rng =
    if trim_space entry.equipment_stage_mode == ""
    then returned (entry.item_id, rng)
    else (roll_level_scaled go c entry level rng >>= λ rolled.
        returned (rolled.0.item_id, rolled.1))

-- The settlement that rewards are rolled for.
pub record Settlement : Type 0 where
  pub op_id : String
  pub ref_id : String
  pub character_level : ℤ

-- One piece of equipment of an entry.
abbrev pub equipment_grant :
    Runtime → Config → Settlement → ℕ → LootEntry → ℕ → ℕ → Outcome (DungeonRewardGrant × ℕ)
equipment_grant go c to index entry i rng =
    entry_item go c entry to.character_level rng >>= λ chosen.
    roll_reward_affixes go c chosen.0 entry.rarity entry.affix_pool_id chosen.1 >>= λ affixes.
    returned (
      record {
        reward_type = "equipment";
        item_id = chosen.0;
        quantity = pos 1;
        equipment_uid =
            equipment_uid c.rules.equipment_uid_prefix to.op_id to.ref_id (pos index) (pos i);
        rarity = item_rarity c.items chosen.0 entry.rarity;
        category = item_category c.items chosen.0;
        affix_pool_id = "";
        affixes = affixes.0;
      },
      affixes.1,
    )

-- The loop over the pieces of an entry, on the number left.
unfoldable pub equipment_grants :
    Runtime
    → Config
    → Settlement
    → ℕ
    → LootEntry
    → ℕ
    → ℕ
    → ℕ
    → Outcome (List DungeonRewardGrant × ℕ)
unfolding roll_level_scaled roll_reward_affixes equipment_uid item_rarity item_category
equipment_grants go c to index entry zero i rng = returned ([], rng)
equipment_grants go c to index entry (suc left) i rng =
    equipment_grant go c to index entry i rng >>= λ grant.
    equipment_grants go c to index entry left (i + 1) grant.1 >>= λ rest.
    returned (grant.0 ∷ rest.0, rest.1)

abbrev pub with_items : DungeonRewardPlan → List DungeonRewardGrant → DungeonRewardPlan
with_items plan grants = record plan { items = plan.items ++ grants }

abbrev pub with_tokens : DungeonRewardPlan → ℤ → DungeonRewardPlan
with_tokens plan quantity = record plan { token_reward = add64 plan.token_reward quantity }

-- The switch on the type of an entry.
unfoldable pub add_reward :
    Runtime
    → Config
    → Settlement
    → ℕ
    → LootEntry
    → ℤ
    → DungeonRewardPlan
    → ℕ
    → Outcome (DungeonRewardPlan × ℕ)
unfolding equipment_grants item_rarity item_category
add_reward go c to index entry quantity plan rng =
    let kind = go.lower entry.reward_type in
    if kind == "item"
    then returned (with_items plan (item_grant c entry.item_id quantity entry.rarity ∷ []), rng)
    else if kind == "equipment"
    then (equipment_grants go c to index entry (pos_part quantity) 0 rng >>= λ grants.
        returned (with_items plan grants.0, grants.1))
    else if kind == "token"
    then returned (with_tokens plan quantity, rng)
    else failed "unsupported reward type"

-- Whether an entry does not drop, and the generator behind the test.
abbrev pub misses : Runtime → LootEntry → ℕ → Bool × ℕ
misses go entry rng =
    if float_lt entry.drop_chance float_one
    then (float_lt entry.drop_chance (go.float64 rng).0, (go.float64 rng).1)
    else (false, rng)

-- One round of the loop over the entries.
unfoldable pub roll_entry :
    Runtime
    → Config
    → Settlement
    → ℕ
    → LootEntry
    → DungeonRewardPlan
    → ℕ
    → Outcome (DungeonRewardPlan × ℕ)
unfolding add_reward roll_quantity float_lt
roll_entry go c to index entry plan rng =
    if (misses go entry rng).0
    then returned (plan, (misses go entry rng).1)
    else (roll_quantity go entry.quantity_min entry.quantity_max (misses go entry rng).1
        >>= λ quantity.
            if leb_ℤ quantity.0 (pos 0)
            then returned (plan, quantity.1)
            else add_reward go c to index entry quantity.0 plan quantity.1)

unfoldable pub roll_entries :
    Runtime
    → Config
    → Settlement
    → ℕ
    → List LootEntry
    → DungeonRewardPlan
    → ℕ
    → Outcome DungeonRewardPlan
unfolding roll_entry
roll_entries go c to index [] plan rng = returned plan
roll_entries go c to index (entry ∷ entries) plan rng =
    roll_entry go c to index entry plan rng >>= λ next.
    roll_entries go c to (index + 1) entries next.0 next.1

abbrev pub settlement : String → String → ℤ → Settlement
settlement op_id ref_id level = record { op_id = op_id; ref_id = ref_id; character_level = level }

-- `lootPoolRewards`
unfoldable pub loot_pool_rewards :
    Runtime → Config → String → String → String → ℤ → ℤ → ℤ → ℤ → Outcome DungeonRewardPlan
unfolding roll_entries seed
loot_pool_rewards go c pool_id op_id ref_id character_id level chapter_id floor_id =
    found_or (lookup pool_id c.loot_pools) "loot pool is not configured" >>= λ pool.
    roll_entries go c (settlement op_id ref_id level) 0 pool.entries no_plan
      (go.pcg (seed op_id ref_id character_id chapter_id floor_id) 0x9e3779b97f4a7c15)
