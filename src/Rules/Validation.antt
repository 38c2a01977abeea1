-- ===== src/Rules/Validation.antt =====
-- `validate` of internal/economy/rules/config.go, in the order of its loops. Which of several faults
-- is reported depends on the order in which Go visits a map; here it is the order of the rows. The
-- time zone that `validate` gives a mystery shop is the one that `loadShops` has given it before.
pub mod Loops
pub mod Goods
pub mod Mystery
pub mod Gear
pub mod Prizes
pub mod Places
pub mod Floors
pub mod Parts
pub mod Ready
use aeon_backend.Base.{List, [], ◌∷◌, String}
use aeon_backend.Rules.Outcome.{Outcome, returned, ◌>>=◌}
use aeon_backend.Rules.Runtime.{Runtime}
use aeon_backend.Rules.Types.{Config}
use aeon_backend.Rules.Validation.Goods.{validate_items, validate_shops}
use aeon_backend.Rules.Validation.Gear.{
  validate_equipment, validate_enhancement, validate_affix_pools,
}
use aeon_backend.Rules.Validation.Prizes.{validate_lottery, validate_bounties}
use aeon_backend.Rules.Validation.Places.{
  validate_loot_pools, validate_activities, validate_bosses, validate_recipes, validate_marketplace,
}
use aeon_backend.Rules.Validation.Floors.{validate_floors}

-- `validate`
unfoldable pub validate : Runtime → Config → Outcome (Unit {0})
unfolding validate_items validate_shops validate_equipment validate_enhancement validate_lottery
    validate_bounties validate_loot_pools validate_affix_pools validate_floors validate_activities
    validate_bosses validate_recipes validate_marketplace
validate go c = validate_items c >>= λ items. validate_shops c >>= λ shops.
    validate_equipment c >>= λ equipment. validate_enhancement c >>= λ enhancement.
    validate_lottery c >>= λ lottery. validate_bounties c >>= λ bounties.
    validate_loot_pools go c >>= λ pools. validate_affix_pools c >>= λ affixes.
    validate_floors c >>= λ floors. validate_activities c >>= λ activities.
    validate_bosses c >>= λ bosses. validate_recipes go c >>= λ recipes. validate_marketplace c
