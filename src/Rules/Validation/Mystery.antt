-- ===== src/Rules/Validation/Mystery.antt =====
-- The checks of a mystery shop in `validate`, and mysteryEntryRequiresToken, of
-- internal/economy/rules/config.go.
use aeon_backend.Base.{
  ℕ, Bool, List, [], ◌∷◌, String, ◌==◌, ◌&&◌, ◌||◌, not, text_key, nat_key, length, true, false,
}
use aeon_backend.Base.Int.{ℤ, pos, leb_ℤ, ltb_ℤ, int_key}
use aeon_backend.Base.Dict.{lookup}
use aeon_backend.Base.Text.{trim_space, codes}
use aeon_backend.Rules.Outcome.{Outcome, returned, check, found_or, ◌>>=◌}
use aeon_backend.Rules.Types.{
  Config, Item, MysteryShopConfig, MysteryShopSlot, MysteryShopPoolEntry, MysteryDiscount,
}
use aeon_backend.Rules.Draw.{total_weight}
use aeon_backend.Rules.Draw.Keys.{all_count}
use aeon_backend.Rules.Loot.Templates.{is_empty}
use aeon_backend.Rules.Validation.Loops.{each, require}

-- `strings.HasPrefix` on code points.
unfoldable pub starts_with : List ℕ → List ℕ → Bool
starts_with s [] = true
starts_with [] (c ∷ cs) = false
starts_with (d ∷ ds) (c ∷ cs) = (d == c) && starts_with ds cs

abbrev pub has_prefix : String → String → Bool
has_prefix s prefix = starts_with (codes s) (codes prefix)

-- `mysteryEntryRequiresToken`
unfoldable pub mystery_entry_requires_token : Item → String → Bool
unfolding starts_with
mystery_entry_requires_token item item_id =
    let category = trim_space item.category in
    let id = trim_space item_id in
    leb_ℤ (pos 3) item.rarity
    || (category == "boss_ticket")
    || (category == "aeb_voucher")
    || has_prefix id "enhancement_stone_t10"
    || has_prefix id "enhancement_stone_t15"
    || has_prefix id "enhancement_stone_t20"
    || has_prefix id "enhancement_stone_t25"
    || has_prefix id "enhancement_stone_t30"

-- An entry of the pool of a slot.
abbrev pub validate_entry : Config → MysteryShopPoolEntry → Outcome (Unit {0})
validate_entry c entry =
    let id = trim_space entry.item_id in
    check (not ((id == "") || leb_ℤ entry.weight (pos 0) || leb_ℤ entry.quantity (pos 0)))
      "mystery shop slot has invalid pool entry"
      (check (not (leb_ℤ entry.base_gold (pos 0) && leb_ℤ entry.base_token (pos 0)))
        "mystery shop slot item requires a price"
        (found_or (lookup id c.items) "mystery shop slot references unknown item" >>= λ item.
          check (not (mystery_entry_requires_token item id && leb_ℤ entry.base_token (pos 0)))
            "mystery shop slot item must use token pricing"
            (require
              (not (ltb_ℤ entry.min_discount (pos 0) || ltb_ℤ (pos 10000) entry.min_discount))
              "mystery shop slot item has invalid minDiscount")))

abbrev pub entry_weight : MysteryShopPoolEntry → ℤ
entry_weight entry = entry.weight

abbrev pub slot_taken : ℤ → List ℤ → Bool
slot_taken slot [] = false
slot_taken slot (s ∷ slots) = (s == slot) || slot_taken slot slots

-- A slot, with the indices that are taken before it.
abbrev pub validate_slot :
    Config → MysteryShopConfig → List ℤ → MysteryShopSlot → Outcome (Unit {0})
validate_slot c mystery seen slot =
    check
      (not (
        leb_ℤ slot.slot_index (pos 0)
        || ltb_ℤ mystery.max_slots slot.slot_index
        || ltb_ℤ slot.unlock_level (pos 0)
        || is_empty slot.pools))
      "mystery shop has invalid slot"
      (check (not (slot_taken slot.slot_index seen)) "mystery shop duplicates slot" (
        each (validate_entry c) slot.pools >>= λ done.
        require (ltb_ℤ (pos 0) (total_weight all_count entry_weight (pos 0) slot.pools))
          "mystery shop slot requires positive pool weight"))

unfoldable pub validate_slots :
    Config → MysteryShopConfig → List ℤ → List MysteryShopSlot → Outcome (Unit {0})
unfolding each total_weight mystery_entry_requires_token
validate_slots c mystery seen [] = returned tt
validate_slots c mystery seen (slot ∷ slots) = validate_slot c mystery seen slot >>= λ done.
    validate_slots c mystery (slot.slot_index ∷ seen) slots

abbrev pub validate_discount : MysteryDiscount → Outcome (Unit {0})
validate_discount discount =
    require
      (not (
        leb_ℤ discount.bps (pos 0)
        || ltb_ℤ (pos 10000) discount.bps
        || leb_ℤ discount.weight (pos 0)))
      "mystery shop has invalid discount"

abbrev pub discount_weight : MysteryDiscount → ℤ
discount_weight discount = discount.weight

-- The part of the loop over the shops that is about a mystery shop.
unfoldable pub validate_mystery : Config → MysteryShopConfig → Outcome (Unit {0})
unfolding validate_slots each total_weight
validate_mystery c mystery =
    check
      (not (
        ltb_ℤ mystery.manual_refresh_token_base_cost (pos 0)
        || ltb_ℤ mystery.manual_refresh_token_step_cost (pos 0)
        || ltb_ℤ mystery.manual_refresh_token_max_cost (pos 0)
        || leb_ℤ mystery.max_slots (pos 0)))
      "mystery shop has invalid refresh cost or maxSlots"
      (check
        (not (
          ltb_ℤ (pos 0) mystery.manual_refresh_token_max_cost
          && ltb_ℤ mystery.manual_refresh_token_max_cost mystery.manual_refresh_token_base_cost))
        "mystery shop has invalid refresh max cost"
        (check
          (not (is_empty mystery.slots || ltb_ℤ mystery.max_slots (pos (length mystery.slots))))
          "mystery shop has invalid slot count"
          (each validate_discount mystery.discounts >>= λ done.
            check (ltb_ℤ (pos 0) (total_weight all_count discount_weight (pos 0) mystery.discounts))
              "mystery shop requires discount weights"
              (validate_slots c mystery [] mystery.slots))))
