-- ===== src/Rules/Validation/Goods.antt =====
-- The checks of items and shops in `validate`, with normalizeWeaponType and
-- mysteryEntryRequiresToken, of internal/economy/rules/config.go.
use aeon_backend.Base.{
  Bool, List, [], ◌∷◌, if◌then◌else◌, String, ◌==◌, ◌&&◌, ◌||◌, not, Option, none, some, text_key,
}
use aeon_backend.Base.Int.{ℤ, pos, leb_ℤ, ltb_ℤ, int_key}
use aeon_backend.Base.Dict.{Dict, lookup}
use aeon_backend.Base.Text.{trim_space}
use aeon_backend.Rules.Outcome.{Outcome, returned, check, ◌>>=◌}
use aeon_backend.Rules.Types.{Config, Item, Shop, ShopSellItem, MysteryShopConfig}
use aeon_backend.Rules.Shops.{is_some}
use aeon_backend.Rules.Validation.Loops.{each, has, require}
use aeon_backend.Rules.Validation.Mystery.{validate_mystery}

-- `weaponTypeKeys`
abbrev pub weapon_type_keys : Dict String ℤ
weapon_type_keys =
    ("none", pos 0) ∷ ("sword", pos 1) ∷ ("axe", pos 2) ∷ ("bow", pos 3) ∷ ("staff", pos 4) ∷ []

abbrev pub agreeing_type : ℤ → String → Option ℤ → Option (ℤ × String)
agreeing_type value key none = none
agreeing_type value key (some number) =
    if (value == pos 0) || (value == number) then some (number, key) else none

-- `normalizeWeaponType`
unfoldable pub normalize_weapon_type : ℤ → String → Option (ℤ × String)
normalize_weapon_type value key =
    let name = if trim_space key == "" then "none" else trim_space key in
    agreeing_type value name (lookup name weapon_type_keys)

abbrev pub is_negative : ℤ → Bool
is_negative n = ltb_ℤ n (pos 0)

unfoldable pub validate_item : Item → Outcome (Unit {0})
unfolding normalize_weapon_type
validate_item item =
    check
      (not (
        is_negative item.buy_currency
        || is_negative item.buy_price
        || is_negative item.sell_price
        || is_negative item.grant_gold
        || is_negative item.grant_locked_aeb))
      "item has invalid shop pricing fields"
      (check (leb_ℤ item.buy_currency (pos 1)) "item has unsupported buyCurrency" (
        require
          (((item.weapon_type == pos 0) && (trim_space item.weapon_type_key == ""))
            || is_some (normalize_weapon_type item.weapon_type item.weapon_type_key))
          "item has invalid weaponType/weaponTypeKey"))

-- The loop over the items.
unfoldable pub validate_items : Config → Outcome (Unit {0})
unfolding each validate_item
validate_items c = each (λ row. validate_item row.1) c.items

abbrev pub contains_slot : ℤ → List ℤ → Bool
contains_slot slot [] = Bool.false
contains_slot slot (s ∷ slots) = (s == slot) || contains_slot slot slots

-- A row of a shop, with the slots that are taken before it.
abbrev pub validate_sell_item : Config → Shop → List ℤ → ShopSellItem → Outcome (Unit {0})
validate_sell_item c shop seen row =
    check (not (trim_space row.item_id == "")) "shop contains an empty sellItems entry" (
      check (has (trim_space row.item_id) c.items) "shop references unknown item" (
        check
          (not (
            is_negative row.min_level
            || is_negative row.max_level
            || is_negative row.rarity
            || is_negative row.buy_price
            || is_negative row.daily_limit))
          "shop item has invalid sell item fields"
          (check
            (is_some shop.mystery
              || not (leb_ℤ row.slot_index (pos 0) || leb_ℤ row.daily_limit (pos 0)))
            "shop item requires slotIndex and dailyLimit"
            (check (is_some shop.mystery || not (contains_slot row.slot_index seen))
              "shop duplicates slot"
              (check (not (ltb_ℤ (pos 0) row.max_level && ltb_ℤ row.max_level row.min_level))
                "shop item has invalid level range"
                (require (leb_ℤ row.rarity (pos 0) || has row.rarity c.equipment.rarities)
                  "shop item has unknown rarity"))))))

unfoldable pub validate_sell_items : Config → Shop → List ℤ → List ShopSellItem → Outcome (Unit {0})
validate_sell_items c shop seen [] = returned tt
validate_sell_items c shop seen (row ∷ rows) = validate_sell_item c shop seen row >>= λ done.
    validate_sell_items c shop (row.slot_index ∷ seen) rows

abbrev pub validate_some_mystery : Config → Option MysteryShopConfig → Outcome (Unit {0})
validate_some_mystery c none = returned tt
validate_some_mystery c (some mystery) = validate_mystery c mystery

-- One round of the loop over the shops.
unfoldable pub validate_shop : Config → Shop → Outcome (Unit {0})
unfolding validate_sell_items validate_mystery
validate_shop c shop =
    validate_sell_items c shop [] shop.sell_items >>= λ done. validate_some_mystery c shop.mystery

unfoldable pub validate_shops : Config → Outcome (Unit {0})
unfolding each validate_shop
validate_shops c = each (λ row. validate_shop c row.1) c.shops
