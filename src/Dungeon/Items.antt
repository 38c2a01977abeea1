-- ===== src/Dungeon/Items.antt =====
-- The items and results that dungeon runs return. Of an equipment item, the stats and the NFT fields
-- that a response may add are left out: this store never sets them.
use aeon_backend.Tokens.Reads.{token}
use aeon_backend.Base.{
  Bool, Error, List, Result, String, [], err, false, if◌then◌else◌, none, ok, some, ℕ, ◌+◌, ◌==◌,
  ◌∷◌, text_key,
}
use aeon_backend.Players.Characters.{own_character}
use aeon_backend.Base.Int.{negsuc, pos, ℤ}
use aeon_backend.Store.{AccountToken, Character, Store, ensure_token}

pub record InventoryItem : Type 0 where
  pub id : ℤ
  pub item_id : String
  pub quantity : ℤ
  pub slot : ℤ
  pub durability : ℤ
  pub enhance_level : ℤ

-- A float64 is kept as its bit pattern.
pub record EquipmentAffix : Type 0 where
  pub affix_id : String
  pub instance_id : String
  pub enhance_hits : ℤ
  pub stat : String
  pub value : ℕ

pub record EquipmentItem : Type 0 where
  pub id : ℤ
  pub equipment_uid : String
  pub item_id : String
  pub rarity : ℤ
  pub enhance_level : ℤ
  pub durability : ℤ
  pub max_durability : ℤ
  pub status : String
  pub equip_slot : ℤ
  pub slot : ℤ
  pub weapon_type : ℤ
  pub weapon_type_key : String
  pub affixes : List EquipmentAffix

pub record DungeonCost : Type 0 where
  pub gold : ℤ
  pub items : List InventoryItem

pub record DungeonRewardGrant : Type 0 where
  pub reward_type : String
  pub item_id : String
  pub quantity : ℤ
  pub equipment_uid : String
  pub rarity : ℤ
  pub category : String
  pub affix_pool_id : String
  pub affixes : List EquipmentAffix

pub record DungeonRewardPlan : Type 0 where
  pub is_boss : Bool
  pub items : List DungeonRewardGrant
  pub token_reward : ℤ

pub record DungeonRewards : Type 0 where
  pub exp : ℤ
  pub levels_gained : ℕ
  pub level : ℤ
  pub exp_to_next_level : ℤ
  pub token_reward : String
  pub items : List InventoryItem
  pub equipment_items : List EquipmentItem

pub record EconomySnapshot : Type 0 where
  pub account_id : ℕ
  pub character_id : ℕ
  pub gold : ℤ
  pub gems : ℤ
  pub stamina : ℤ
  pub bag_slots : ℤ
  pub bag_expand_count : ℤ
  pub has_license : Bool
  pub level : ℤ
  pub exp : ℤ
  pub exp_to_next_level : ℤ
  pub highest_cleared_chapter_id : ℤ
  pub highest_cleared_floor_id : ℤ
  pub account_token : AccountToken
  pub inventory : List InventoryItem
  pub warehouse : List InventoryItem
  pub loot_tray : List InventoryItem
  pub equipment : List EquipmentItem

pub record DungeonResult : Type 0 where
  pub dungeon_run_id : String
  pub chapter_id : ℤ
  pub floor_id : ℤ
  pub is_boss : Bool
  pub status : String
  pub result : String
  pub cost : DungeonCost
  pub rewards : DungeonRewards
  pub discarded_rewards : List InventoryItem
  pub snapshot : EconomySnapshot

abbrev pub snapshot_of : ℕ → ℕ → Character → AccountToken → EconomySnapshot
snapshot_of account id row token = record {
  account_id = account;
  character_id = id;
  gold = pos 0;
  gems = pos 0;
  stamina = pos 0;
  bag_slots = pos 25;
  bag_expand_count = pos 0;
  has_license = false;
  level = row.level;
  exp = row.exp;
  exp_to_next_level = pos 0;
  highest_cleared_chapter_id = row.highest_cleared_chapter_id;
  highest_cleared_floor_id = row.highest_cleared_floor_id;
  account_token = token;
  inventory = [];
  warehouse = [];
  loot_tray = [];
  equipment = [];
}

-- `EconomySnapshot`
unfoldable pub economy_snapshot : ℕ → ℕ → Store → Result EconomySnapshot × Store
unfolding own_character ensure_token
economy_snapshot account id s = elim (own_character account id s) [
  | none ↦ (err Error.not_found, s)
  | some row ↦
      let (token, s₁) = ensure_token account s in (ok (snapshot_of account id row token), s₁)
]

abbrev pub equipment_of : ℕ → DungeonRewardGrant → EquipmentItem
equipment_of index reward = record {
  id = pos (index + 1);
  equipment_uid = reward.equipment_uid;
  item_id = reward.item_id;
  rarity = reward.rarity;
  enhance_level = pos 0;
  durability = pos 0;
  max_durability = pos 0;
  status = "IN_LOOT_TRAY";
  equip_slot = negsuc 0;
  slot = negsuc 0;
  weapon_type = pos 0;
  weapon_type_key = "";
  affixes = reward.affixes;
}

abbrev pub item_of : ℕ → DungeonRewardGrant → InventoryItem
item_of index reward = record {
  id = pos (index + 1);
  item_id = reward.item_id;
  quantity = reward.quantity;
  slot = negsuc 0;
  durability = pos 0;
  enhance_level = pos 0;
}

-- The loop over the reward plan, from an index on: the items, and the equipment.
unfoldable pub split_rewards : ℕ → List DungeonRewardGrant → List InventoryItem × List EquipmentItem
split_rewards index [] = ([], [])
split_rewards index (reward ∷ rewards) =
    let rest = split_rewards (index + 1) rewards in
    if reward.reward_type == "equipment"
    then (rest.0, equipment_of index reward ∷ rest.1)
    else (item_of index reward ∷ rest.0, rest.1)
