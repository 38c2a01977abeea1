-- ===== src/Rules/Validation/Floors.antt =====
-- The checks of the dungeon floors in `validate`, with enterCostHasItem, of
-- internal/economy/rules/config.go.
use aeon_backend.Base.{
  ℕ, Bool, List, [], ◌∷◌, zero, suc, ◌+◌, ◌/◌, ◌-◌, String, ◌==◌, ◌&&◌, ◌||◌, not, Option, none,
  some, text_key, length, nat_key, false,
}
use aeon_backend.Base.Int.{ℤ, pos, leb_ℤ}
use aeon_backend.Base.Dict.{Dict, lookup}
use aeon_backend.Base.Text.{trim_space}
use aeon_backend.Dungeon.Items.{InventoryItem, DungeonCost}
use aeon_backend.Rules.Outcome.{Outcome, returned, check, found_or, ◌>>=◌}
use aeon_backend.Rules.Types.{Config, DungeonFloor}
use aeon_backend.Rules.Names.{floor_key}
use aeon_backend.Rules.Validation.Loops.{has, require}

abbrev pub cost_item : String → ℤ → List InventoryItem → Bool
cost_item item_id quantity [] = false
cost_item item_id quantity (item ∷ items) =
    ((item.item_id == item_id) && leb_ℤ quantity item.quantity) || cost_item item_id quantity items

-- `enterCostHasItem`
unfoldable pub enter_cost_has_item : DungeonCost → String → ℤ → Bool
enter_cost_has_item cost item_id quantity = cost_item item_id quantity cost.items

-- `requiredBossTickets`
abbrev pub required_boss_tickets : Dict String String
required_boss_tickets =
    (floor_key (pos 0) (pos 10), "boss_ticket_ashen_threshold")
    ∷ (floor_key (pos 1) (pos 20), "boss_ticket_gloomwood")
    ∷ (floor_key (pos 2) (pos 30), "boss_ticket_voidscar")
    ∷ []

abbrev pub validate_ticket : DungeonFloor → Option String → Outcome (Unit {0})
validate_ticket floor none = returned tt
validate_ticket floor (some ticket) = check floor.is_boss "dungeon floor must be marked isBoss" (
    require (enter_cost_has_item floor.enter_cost ticket (pos 1))
      "dungeon floor must require its ticket")

-- A floor that is configured, under its key.
abbrev pub validate_floor : Config → String → DungeonFloor → Outcome (Unit {0})
validate_floor c key floor =
    check (not (leb_ℤ floor.max_exp (pos 0))) "dungeon floor has invalid maxExp" (
      check (not (trim_space floor.loot_pool_id == "")) "dungeon floor is missing lootPoolId" (
        check (has floor.loot_pool_id c.loot_pools) "dungeon floor references unknown loot pool"
          (validate_ticket floor (lookup key required_boss_tickets))))

abbrev pub key_of_floor : ℕ → String
key_of_floor floor_id = floor_key (pos ((floor_id - 1) / 10)) (pos floor_id)

abbrev pub validate_floor_id : Config → ℕ → Outcome (Unit {0})
validate_floor_id c floor_id =
    found_or (lookup (key_of_floor floor_id) c.floors) "dungeons.json missing floor" >>= λ floor.
    validate_floor c (key_of_floor floor_id) floor

-- The loop over the floor ids, from one on and for the number left.
unfoldable pub validate_floor_ids : Config → ℕ → ℕ → Outcome (Unit {0})
unfolding floor_key enter_cost_has_item
validate_floor_ids c floor_id zero = returned tt
validate_floor_ids c floor_id (suc left) =
    validate_floor_id c floor_id >>= λ done. validate_floor_ids c (floor_id + 1) left

-- The checks of the floors.
unfoldable pub validate_floors : Config → Outcome (Unit {0})
unfolding validate_floor_ids
validate_floors c =
    check (length c.floors == 30) "dungeons.json must define 30 floors" (validate_floor_ids c 1 30)
