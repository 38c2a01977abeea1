-- ===== src/Rules/Samples.antt =====
-- A generator to draw with, and a small configuration that `validate` accepts.
pub mod Gear
pub mod Places
pub mod Prizes
pub mod Rates
pub mod Configs
use aeon_backend.Base.{
  ℕ, Bool, List, [], ◌∷◌, String, zero, suc, ◌+◌, ◌*◌, ◌/◌, ◌%◌, ◌-◌, ◌^◌, ◌<◌, true, false, arith,
  nat_eq,
}
use aeon_backend.Base.Int.{ℤ, pos}
use aeon_backend.Base.Dict.{Dict}
use aeon_backend.Dungeon.Items.{InventoryItem}
use aeon_backend.Rules.Runtime.{Runtime, float_one}
use aeon_backend.Rules.Types.{
  Config, Item, DungeonFloor, LootEntry, LootPool, AffixConfig, AffixPool, EquipmentTemplate,
  EquipmentRarity, EquipmentConfig, BountySlotConfig, BountyTaskTemplate, EconomyRules,
  MarketplaceConfig, BountyConfig, LotteryConfig,
}
use aeon_backend.Rules.Validation.Floors.{key_of_floor}

pub remainder_lt : (n g : ℕ) → 0 < n → g % n < n
remainder_lt n g h = grind arith

-- Draws by remainders. The texts of the sample are in lower case.
abbrev pub dice : Runtime
dice = record {
  pcg = λ a b. (a + b) % 2 ^ 32;
  int_n = λ n g. (g % n, (g * 5 + 3) % 2 ^ 32);
  int_n_lt = remainder_lt;
  float64 = λ g. (float_one / 2, (g + 1) % 2 ^ 32);
  plus = λ a b. a + b;
  minus = λ a b. a - b;
  times = λ a b. a * b;
  over = λ a b. a / b;
  of_int = λ n. 0;
  lower = λ s. s;
  equal_fold = λ s t. true;
}
