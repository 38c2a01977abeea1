-- ===== src/Rules/Prizes/Lotteries.antt =====
-- What a lottery order gives: `validate` and LotteryPlan of internal/economy/rules/config.go.
use aeon_backend.Base.{ℕ, some, List, String, text_key, false, All, ◌≡◌, ◌⊎◌}
use aeon_backend.Base.Int.{ℤ, pos, ◌<ℤ◌, IsInt64, int_key}
use aeon_backend.Base.Dict.{lookup}
use aeon_backend.Base.Rows.{Distinct, select}
use aeon_backend.Dungeon.Items.{DungeonRewardGrant}
use aeon_backend.Rules.Outcome.{Outcome, returned}
use aeon_backend.Rules.Runtime.{Runtime}
use aeon_backend.Rules.Types.{Config, EquipmentTemplate}
use aeon_backend.Rules.Affixes.Total.{Pools, Rarities}
use aeon_backend.Rules.Draw.Keys.{validate_weights}
use aeon_backend.Rules.Loot.Templates.{is_empty}
use aeon_backend.Rules.Prizes.{affordable}

-- The prizes of a category are not sold out, for a character's level.
abbrev pub Stocked : Config → List EquipmentTemplate → ℤ → String → Type 0
Stocked c templates level category =
    ((category ≡ "equipment") × (is_empty (select (affordable level) templates) ≡ false))
    ⊎ ((category ≡ "rare_material") × (is_empty c.lottery.rare_material_item_ids ≡ false))
    ⊎ ((category ≡ "boss_ticket") × (is_empty c.lottery.boss_ticket_item_ids ≡ false))
    ⊎ ((category ≡ "mount") × (is_empty c.lottery.mount_item_ids ≡ false))

-- Every category that can be drawn has a prize.
abbrev pub AllStocked : Config → List EquipmentTemplate → ℤ → Type 0
AllStocked c templates level =
    (category : String) (weight : ℤ)
    → lookup category c.lottery.category_weight ≡ some weight
    → pos 0 <ℤ weight
    → Stocked c templates level category

-- A map of weights is a map, with int64 values.
abbrev pub Map64 {ℓ} : {K : Type ℓ} → List (K × ℤ) → Type ℓ
Map64 rows = Distinct rows × All (λ r. IsInt64 r.1) rows

-- A draw gives one of something.
abbrev pub OnePrize : Outcome (DungeonRewardGrant × ℕ) → Type 0
OnePrize m = (drawn : DungeonRewardGrant × ℕ) × (m ≡ returned drawn) × (drawn.0.quantity ≡ pos 1)

-- The weights of the lottery, and what equipment is rolled with, are in order.
pub record Stock (c : Config) : Type 0 where
  pub categories : validate_weights c.lottery.category_weight ≡ returned tt
  pub rarities : validate_weights c.lottery.equipment_rarity_weight ≡ returned tt
  pub category_map : Map64 c.lottery.category_weight
  pub rarity_map : Map64 c.lottery.equipment_rarity_weight
  pub affix_pools : Pools c
  pub counts : Rarities c
