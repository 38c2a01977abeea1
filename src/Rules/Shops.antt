-- ===== src/Rules/Shops.antt =====
-- Shops: Shop, SellsItem, SellItem, ShopPurchasePlan, MysteryShopPurchasePlan and
-- EquipmentSellPriceGold of internal/economy/rules/config.go.
pub mod Purchases
use aeon_backend.Base.{
  ℕ, Bool, List, [], ◌∷◌, if◌then◌else◌, String, ◌==◌, ◌&&◌, not, Option, none, some, zero, suc,
  ◌+◌, text_key, true, false,
}
use aeon_backend.Base.Int.{ℤ, pos, pos_part, leb_ℤ, ltb_ℤ, mul64, int_key}
use aeon_backend.Base.Dict.{Dict, lookup}
use aeon_backend.Base.Text.{trim_space}
use aeon_backend.Dungeon.Items.{DungeonRewardGrant, DungeonRewardPlan, EquipmentAffix}
use aeon_backend.Rules.Outcome.{Outcome, failed, returned, check, found_or, ◌>>=◌}
use aeon_backend.Rules.Runtime.{Runtime}
use aeon_backend.Rules.Types.{Config, Item, Shop, ShopSellItem, EquipmentTemplate}
use aeon_backend.Rules.Affixes.{equipment_template, roll_equipment_affixes}
use aeon_backend.Rules.Names.{seed, equipment_uid}
use aeon_backend.Rules.Loot.Pools.{no_plan, with_items}

-- `Config.Shop`
unfoldable pub shop_of : Config → String → Option Shop
shop_of c shop_id = lookup (trim_space shop_id) c.shops

-- The row for an item that a shop sells because it sells all of them.
abbrev pub plain_item : String → ShopSellItem
plain_item item_id = record {
  slot_index = pos 0;
  item_id = item_id;
  min_level = pos 0;
  max_level = pos 0;
  rarity = pos 0;
  buy_price = pos 0;
  daily_limit = pos 0;
}

-- The loop over the rows of a shop.
unfoldable pub find_sell_item : String → List ShopSellItem → Option ShopSellItem
find_sell_item item_id [] = none
find_sell_item item_id (row ∷ rows) =
    if trim_space row.item_id == item_id then some row else find_sell_item item_id rows

-- `SellItem`
unfoldable pub sell_item : Shop → String → Option ShopSellItem
unfolding find_sell_item
sell_item shop item_id =
    let id = trim_space item_id in
    if id == ""
    then none
    else if shop.sell_all_items
    then some (plain_item id)
    else find_sell_item id shop.sell_items

abbrev pub is_some {ℓ} : {A : Type ℓ} → Option A → Bool
is_some none = false
is_some (some a) = true

-- `SellsItem`
unfoldable pub sells_item : Shop → String → Bool
unfolding sell_item
sells_item shop item_id = is_some (sell_item shop item_id)

-- The gold for a rarity, if it is positive.
abbrev pub sell_price : Option ℤ → Option ℤ
sell_price none = none
sell_price (some gold) = if ltb_ℤ (pos 0) gold then some gold else none

-- `EquipmentSellPriceGold`; where it reports false, the callers read no price.
unfoldable pub equipment_sell_price_gold : Config → String → ℤ → Option ℤ
unfolding equipment_template
equipment_sell_price_gold c item_id rarity = elim (equipment_template c item_id) [
  | none ↦ none
  | some template ↦ sell_price (lookup rarity template.sell_price_gold)
]

-- The affixes of a piece of equipment, if it has a template.
abbrev pub known_affixes :
    Runtime → Config → String → ℤ → ℕ → Option EquipmentTemplate → Outcome (List EquipmentAffix × ℕ)
known_affixes go c item_id rarity rng none = returned ([], 0)
known_affixes go c item_id rarity rng (some template) =
    roll_equipment_affixes go c item_id rarity rng

-- The affixes of the piece of equipment with an index in a purchase.
abbrev pub shop_affixes :
    Runtime → Config → String → ℤ → String → ℤ → ℕ → Outcome (List EquipmentAffix × ℕ)
shop_affixes go c op_id character_id item_id rarity i =
    known_affixes go c item_id rarity
      (go.pcg (seed op_id "shop" character_id (pos i) (pos 0)) 0x4cf5ad432745937f)
      (equipment_template c item_id)

abbrev pub category_or_item : Item → String
category_or_item item = if trim_space item.category == "" then "item" else trim_space item.category

abbrev pub shop_piece : Config → String → Item → ℤ → ℕ → List EquipmentAffix → DungeonRewardGrant
unfolding equipment_uid
shop_piece c op_id item rarity i affixes = record {
  reward_type = "equipment";
  item_id = item.item_id;
  quantity = pos 1;
  equipment_uid = equipment_uid c.rules.equipment_uid_prefix op_id "shop" (pos i) (pos 0);
  rarity = rarity;
  category = category_or_item item;
  affix_pool_id = "";
  affixes = affixes;
}

-- The loop over the pieces of equipment, on the number left.
unfoldable pub shop_pieces :
    Runtime → Config → String → ℤ → Item → ℤ → ℕ → ℕ → Outcome (List DungeonRewardGrant)
unfolding roll_equipment_affixes equipment_template equipment_uid seed
shop_pieces go c op_id character_id item rarity zero i = returned []
shop_pieces go c op_id character_id item rarity (suc left) i =
    shop_affixes go c op_id character_id item.item_id rarity i >>= λ affixes.
    shop_pieces go c op_id character_id item rarity left (i + 1) >>= λ rest.
    returned (shop_piece c op_id item rarity i affixes.0 ∷ rest)

-- The rarity of what is bought: the one asked for, that of the item, or one.
abbrev pub bought_rarity : Item → ℤ → ℤ
bought_rarity item override =
    if leb_ℤ override (pos 0)
    then (if leb_ℤ item.rarity (pos 0) then pos 1 else item.rarity)
    else override

abbrev pub bought_item : Item → ℤ → DungeonRewardGrant
bought_item item quantity = record {
  reward_type = "item";
  item_id = item.item_id;
  quantity = quantity;
  equipment_uid = "";
  rarity = item.rarity;
  category = category_or_item item;
  affix_pool_id = "";
  affixes = [];
}

-- What a positive quantity of an item gives.
abbrev pub bought_plan : Runtime → Config → String → ℤ → Item → ℤ → ℤ → Outcome DungeonRewardPlan
bought_plan go c op_id character_id item quantity override =
    if ltb_ℤ (pos 0) item.grant_gold
    then returned no_plan
    else if ltb_ℤ (pos 0) item.grant_locked_aeb
    then returned (record no_plan { token_reward = mul64 item.grant_locked_aeb quantity })
    else if not item.is_equipment
    then returned (with_items no_plan (bought_item item quantity ∷ []))
    else (shop_pieces go c op_id character_id item (bought_rarity item override) (pos_part quantity)
          0
        >>= λ grants. returned (with_items no_plan grants))

-- `ShopPurchasePlan`
unfoldable pub shop_purchase_plan :
    Runtime → Config → String → ℤ → String → ℤ → ℤ → Outcome DungeonRewardPlan
unfolding shop_pieces
shop_purchase_plan go c op_id character_id item_id quantity override =
    found_or (lookup (trim_space item_id) c.items) "unknown item" >>= λ item.
    check (ltb_ℤ (pos 0) quantity) "quantity must be positive"
      (bought_plan go c op_id character_id item quantity override)

-- The fields of a `store.MysteryShopOffer` that are read.
pub record MysteryOffer : Type 0 where
  pub item_id : String
  pub quantity : ℤ
  pub rarity : ℤ

-- The loop that gives the equipment of a plan the rarity of the offer.
unfoldable pub reroll_rarity :
    Runtime
    → Config
    → String
    → ℤ
    → ℤ
    → ℕ
    → List DungeonRewardGrant
    → Outcome (List DungeonRewardGrant)
unfolding roll_equipment_affixes seed
reroll_rarity go c op_id character_id rarity index [] = returned []
reroll_rarity go c op_id character_id rarity index (grant ∷ grants) =
    (if go.equal_fold grant.reward_type "equipment"
      then (roll_equipment_affixes go c grant.item_id rarity
            (go.pcg (seed op_id "mystery" character_id (pos index) (pos 0)) 0x4cf5ad432745937f)
          >>= λ affixes. returned (record grant { rarity = rarity; affixes = affixes.0 }))
      else returned grant)
    >>= λ first. reroll_rarity go c op_id character_id rarity (index + 1) grants >>= λ rest.
        returned (first ∷ rest)

abbrev pub offered_quantity : MysteryOffer → ℤ
offered_quantity offer = if leb_ℤ offer.quantity (pos 0) then pos 1 else offer.quantity

-- `MysteryShopPurchasePlan`
unfoldable pub mystery_shop_purchase_plan :
    Runtime → Config → String → ℤ → MysteryOffer → Outcome DungeonRewardPlan
unfolding shop_purchase_plan reroll_rarity
mystery_shop_purchase_plan go c op_id character_id offer =
    shop_purchase_plan go c op_id character_id (trim_space offer.item_id) (offered_quantity offer)
      (pos 0)
    >>= λ plan.
        if ltb_ℤ (pos 0) offer.rarity
        then (reroll_rarity go c op_id character_id offer.rarity 0 plan.items >>= λ grants.
            returned (record plan { items = grants }))
        else returned plan
