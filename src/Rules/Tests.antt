-- ===== src/Rules/Tests.antt =====
-- Runs of the economy rules on the samples.
use aeon_backend.Base.{
  ℕ, List, [], ◌∷◌, String, text_key, ◌≡◌, ◌⊎◌, inl, inr, some, none, refl, ◌^◌, All, length, map,
  ◌≤◌, ◌<◌, arith, true, ◌==◌, false, ◌≢◌,
}
use aeon_backend.Base.Int.{ℤ, pos, int_key, ◌≤ℤ◌, ◌<ℤ◌, IsInt64, add64}
use aeon_backend.Base.Dict.{Dict, lookup}
use aeon_backend.Base.Rows.{All-lookup, Distinct}
use aeon_backend.Base.Sorting.{text_lt}
use aeon_backend.Base.Text.{trim_space, format_int}
use aeon_backend.Dungeon.Items.{DungeonRewardPlan, EquipmentAffix}
use aeon_backend.Rules.Outcome.{panicked, returned, failed}
use aeon_backend.Rules.Samples.{dice}
use aeon_backend.Rules.Samples.Configs.{sample}
use aeon_backend.Rules.Samples.Gear.{blade, plain_pool, rare_row, item}
use aeon_backend.Rules.Validation.{validate}
use aeon_backend.Rules.Validation.Parts.{validate-Valid, equipment-Rarities}
use aeon_backend.Rules.Draw.{roll_quantity, at_least, at_least_one}
use aeon_backend.Rules.Draw.Quantity.{roll_quantity_range}
use aeon_backend.Rules.Draw.Keys.{validate_weights, weighted_key, weighted_key_lem}
use aeon_backend.Rules.Affixes.{equipment_template, roll_equipment_affixes}
use aeon_backend.Rules.Affixes.Semantic.{occurs, FromPool, numbered, roll_equipment_affixes_lem}
use aeon_backend.Rules.Affixes.Total.{Pools, Rarities, Rolls}
use aeon_backend.Rules.Affixes.Eligible.{Weights}
use aeon_backend.Rules.Loot.Total.{Listed}
use aeon_backend.Rules.Settlements.{DungeonClaim, BossClaim, boss_rewards}
use aeon_backend.Rules.Settlements.Dungeons.{Typed}
use aeon_backend.Rules.Settlements.Bosses.{BossPlan, boss_rewards-total}
use aeon_backend.Rules.Shops.{shop_purchase_plan}
use aeon_backend.Rules.Shops.Purchases.{quantities, Of, shop_purchase_plan_lem}
use aeon_backend.Rules.Enhancement.{enhancement_rule}
use aeon_backend.Rules.Enhancement.Costs.{Safe, enhancement_rule-Safe}
use aeon_backend.Rules.Prizes.{lottery_plan}

sample_valid : validate dice sample ≡ returned tt
unfolding validate trim_space add64 format_int
sample_valid = refl

fits : (n : ℕ) → n < 2 ^ 63 → IsInt64 (pos n)
fits n h = (omega arith, omega arith)

sample-Pools : Pools sample
sample-Pools id pool found =
    All-lookup (λ row. Weights row.1.affixes × Rolls row.1) id pool sample.affix_pools
      (((fits 3 (omega arith), (fits 1 (omega arith), tt)), (omega arith, omega arith)), tt) found

sample-Rarities : Rarities sample
sample-Rarities = (equipment-Rarities sample (validate-Valid dice sample sample_valid).equipment).1

abbrev ends : IsInt64 (pos 1) × IsInt64 (pos 3)
ends = (fits 1 (omega arith), fits 3 (omega arith))

sample-Typed : Typed dice sample
sample-Typed id pool found =
    All-lookup (λ row. All (Listed dice) row.1.entries) id pool sample.loot_pools
      (
        (
          (inl refl, ends.0, ends.1),
          ((inr (inr refl), ends.0, ends.1), ((inr (inl refl), ends.0, ends.1), tt)),
        ),
        tt,
      )
      found

roll_quantity_range_example :
    (v : ℤ) × (rng : ℕ) × (roll_quantity dice (pos 2) (pos 4) 7 ≡ returned (v, rng))
    × (at_least_one (pos 2) ≤ℤ v)
    × (v ≤ℤ at_least (at_least_one (pos 2)) (pos 4))
roll_quantity_range_example =
    roll_quantity_range dice (pos 2) (pos 4) 7 (fits 2 (omega arith)) (fits 4 (omega arith))

abbrev weights : Dict String ℤ
weights = ("gold", pos 3) ∷ ("stone", pos 0) ∷ ("herb", pos 2) ∷ []

apart : (a b : String) → (a == b) ≡ false → a ≢ b
apart a b h e = cc (h, (text_key.agrees a b).1 e)

weights-Distinct : Distinct weights
weights-Distinct = (
  (apart "stone" "gold" refl, (apart "herb" "gold" refl, tt)),
  ((apart "herb" "stone" refl, tt), (tt, tt)),
)

weighted_key_example :
    (k : String) × (rng : ℕ) × (weight : ℤ) × (weighted_key text_lt dice "" weights 4
      ≡ returned (k, rng))
    × (lookup k weights ≡ some weight)
    × (pos 0 <ℤ weight)
unfolding validate_weights add64
weighted_key_example =
    weighted_key_lem text_lt dice "" weights 4 weights-Distinct
      (fits 3 (omega arith), (fits 0 (omega arith), (fits 2 (omega arith), tt))) refl

roll_equipment_affixes_example :
    (affixes : List EquipmentAffix) × (rng : ℕ) × (roll_equipment_affixes dice sample "blade"
        (pos 2)
        7
      ≡ returned (affixes, rng))
    × (pos (length affixes) ≤ℤ pos 3)
    × ((id : String) → occurs id affixes ≤ 2)
    × All (FromPool plain_pool.affixes) affixes
    × (map (λ (a : EquipmentAffix). a.instance_id) affixes ≡ numbered 0 (length affixes))
unfolding equipment_template trim_space
roll_equipment_affixes_example =
    roll_equipment_affixes_lem dice sample "blade" (pos 2) 7 (blade 1) rare_row plain_pool refl refl
      refl (omega arith) (fits 3 (omega arith), (fits 1 (omega arith), tt))

abbrev on_third_floor : DungeonClaim
on_third_floor = record {
  op_id = "op-1";
  dungeon_run_id = "run-1";
  character_id = pos 7;
  chapter_id = pos 0;
  floor_id = pos 3;
  result = "victory";
  exp = pos 20;
}

abbrev ogre_claim : BossClaim
ogre_claim = record {
  op_id = "op-2";
  character_id = pos 7;
  boss_event_id = pos 1;
  boss_key = "ogre";
}

boss_rewards_example :
    ((trim_space "ogre" == "") ≡ true)
      × (boss_rewards dice sample ogre_claim (pos 50) ≡ failed "bossKey is required")
    ⊎ ((lookup (trim_space "ogre") sample.bosses ≡ none)
        × (boss_rewards dice sample ogre_claim (pos 50) ≡ failed "boss is not configured"))
    ⊎ BossPlan (boss_rewards dice sample ogre_claim (pos 50))
boss_rewards_example =
    boss_rewards-total dice sample sample_valid sample-Pools sample-Typed ogre_claim (pos 50)

shop_purchase_example :
    (plan : DungeonRewardPlan) × (shop_purchase_plan dice sample "op-3"
        (pos 7)
        "blade"
        (pos 3)
        (pos 2)
      ≡ returned plan)
    × (quantities plan.items ≡ pos 3)
    × All (Of "blade") plan.items
    × (plan.token_reward ≡ pos 0)
unfolding trim_space
shop_purchase_example =
    shop_purchase_plan_lem dice sample "op-3" (pos 7) "blade" (pos 3) (pos 2)
      (item "blade" "weapon" true) sample-Pools sample-Rarities refl (omega arith) (omega arith)
      (omega arith)

enhancement_rule_example : Safe (pos 6) (enhancement_rule sample "blade" (pos 2) (pos 6))
enhancement_rule_example = enhancement_rule-Safe dice sample "blade" (pos 2) (pos 6) sample_valid

-- An order of a configuration that `validate` accepts panics: a category with no items is drawn.
mounts_panic : lottery_plan dice sample (λ l. l) "op-5" (pos 7) (pos 12) (pos 1) ≡ panicked
unfolding lottery_plan add64 format_int
mounts_panic = refl
