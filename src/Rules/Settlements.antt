-- ===== src/Rules/Settlements.antt =====
-- What a settlement gives: DungeonRewards, GatheringRewards, FarmingRewards and BossRewards of
-- internal/economy/rules/config.go. Of a request only the fields that are read are arguments.
pub mod Recipes
pub mod Bosses
pub mod Dungeons
use Prim.Native.String.{◌++◌ as text_append}
use aeon_backend.Base.{
  ℕ, Bool, List, [], ◌∷◌, ◌++◌, if◌then◌else◌, String, ◌==◌, ◌&&◌, ◌||◌, not, Option, none, some,
  zero, suc, ◌+◌, text_key, true, false,
}
use aeon_backend.Base.Int.{ℤ, pos, pos_part, leb_ℤ, ltb_ℤ, add64, mul64}
use aeon_backend.Base.Dict.{Dict, lookup}
use aeon_backend.Base.Text.{trim_space, format_int}
use aeon_backend.Dungeon.Items.{DungeonRewardGrant, DungeonRewardPlan}
use aeon_backend.Rules.Outcome.{Outcome, failed, returned, check, found_or, ◌>>=◌}
use aeon_backend.Rules.Runtime.{Runtime}
use aeon_backend.Rules.Types.{
  Config, DungeonFloor, BossDefinition, BossContributionTier, Recipe, RecipeMaterial,
}
use aeon_backend.Rules.Affixes.{roll_reward_affixes}
use aeon_backend.Rules.Names.{seed, equipment_uid, floor_key}
use aeon_backend.Rules.Loot.Pools.{
  loot_pool_rewards, no_plan, item_grant, with_items, item_rarity, item_category,
}

-- `DungeonFloor`
unfoldable pub dungeon_floor : Config → ℤ → ℤ → Option DungeonFloor
unfolding floor_key
dungeon_floor c chapter_id floor_id = lookup (floor_key chapter_id floor_id) c.floors

-- The fields of a `store.DungeonFinishRequest` that are read.
pub record DungeonClaim : Type 0 where
  pub op_id : String
  pub dungeon_run_id : String
  pub character_id : ℤ
  pub chapter_id : ℤ
  pub floor_id : ℤ
  pub result : String
  pub exp : ℤ

abbrev pub with_boss : Bool → DungeonRewardPlan → DungeonRewardPlan
with_boss is_boss plan = record plan { is_boss = is_boss }

-- The rewards on a floor that is configured.
abbrev pub floor_rewards :
    Runtime → Config → DungeonClaim → DungeonFloor → Outcome DungeonRewardPlan
floor_rewards go c req floor =
    check (not (ltb_ℤ floor.max_exp req.exp)) "exp exceeds configured cap" (
      if not (req.result == "victory") || (floor.loot_pool_id == "")
      then returned (with_boss floor.is_boss no_plan)
      else (loot_pool_rewards go c floor.loot_pool_id req.op_id req.dungeon_run_id req.character_id
            (pos 0) req.chapter_id req.floor_id
          >>= λ rewards. returned (with_boss floor.is_boss rewards)))

-- `DungeonRewards`
unfoldable pub dungeon_rewards : Runtime → Config → DungeonClaim → Outcome DungeonRewardPlan
unfolding loot_pool_rewards
dungeon_rewards go c req =
    found_or (dungeon_floor c req.chapter_id req.floor_id) "dungeon floor is not configured"
    >>= λ floor. floor_rewards go c req floor

-- The fields of a `store.ActivitySettlementRequest` that are read.
pub record ActivityClaim : Type 0 where
  pub op_id : String
  pub activity_id : String
  pub character_id : ℤ
  pub character_level : ℤ

-- `GatheringRewards`
unfoldable pub gathering_rewards : Runtime → Config → ActivityClaim → Outcome DungeonRewardPlan
unfolding loot_pool_rewards
gathering_rewards go c req =
    found_or (lookup (trim_space req.activity_id) c.gather_nodes) "gathering node is not configured"
    >>= λ node.
        loot_pool_rewards go c node.loot_pool_id req.op_id req.activity_id req.character_id
          req.character_level (pos 0) (pos 0)

-- `FarmingRewards`
unfoldable pub farming_rewards : Runtime → Config → ActivityClaim → Outcome DungeonRewardPlan
unfolding loot_pool_rewards
farming_rewards go c req =
    found_or (lookup (trim_space req.activity_id) c.crops) "crop is not configured" >>= λ crop.
    loot_pool_rewards go c crop.harvest_loot_pool_id req.op_id req.activity_id req.character_id
      (pos 0) (pos 0) (pos 0)

-- `mergeRewardPlan`
unfoldable pub merge_reward_plan : DungeonRewardPlan → DungeonRewardPlan → DungeonRewardPlan
merge_reward_plan into from = record {
  is_boss = into.is_boss || from.is_boss;
  items = into.items ++ from.items;
  token_reward = add64 into.token_reward from.token_reward;
}

-- The loop of `bossTierPool`.
unfoldable pub tier_pool : ℤ → String → List BossContributionTier → String
tier_pool contribution chosen [] = chosen
tier_pool contribution chosen (tier ∷ tiers) =
    tier_pool contribution
      (if leb_ℤ tier.min_contribution contribution && not (trim_space tier.bonus_loot_pool_id == "")
        then tier.bonus_loot_pool_id
        else chosen)
      tiers

-- `bossTierPool`
unfoldable pub boss_tier_pool : BossDefinition → ℤ → String
unfolding tier_pool
boss_tier_pool boss contribution = tier_pool contribution "" boss.contribution_tiers

-- The fields of a `store.BossSettleRequest` that are read.
pub record BossClaim : Type 0 where
  pub op_id : String
  pub character_id : ℤ
  pub boss_event_id : ℤ
  pub boss_key : String

-- One of the three pools of a boss, merged into the plan if it is asked for.
abbrev pub add_pool :
    Runtime
    → Config
    → BossClaim
    → Bool
    → String
    → String
    → ℤ
    → ℤ
    → DungeonRewardPlan
    → Outcome DungeonRewardPlan
add_pool go c req wanted pool_id suffix chapter_id floor_id plan =
    if wanted
    then (loot_pool_rewards go c pool_id (text_append req.op_id suffix)
          (text_append "boss-" (format_int req.boss_event_id)) req.character_id (pos 0) chapter_id
          floor_id
        >>= λ rewards. returned (merge_reward_plan plan rewards))
    else returned plan

abbrev pub configured_boss_rewards :
    Runtime → Config → BossClaim → ℤ → BossDefinition → Outcome DungeonRewardPlan
configured_boss_rewards go c req contribution boss =
    add_pool go c req (not (boss.participation_loot_pool_id == "")) boss.participation_loot_pool_id
      ":participation" (pos 0) (pos 0) (with_boss true no_plan)
    >>= λ first.
        add_pool go c req (ltb_ℤ (pos 0) contribution && not (boss.loot_pool_id == ""))
          boss.loot_pool_id ":main" contribution (pos 0) first
        >>= λ second.
            add_pool go c req (not (boss_tier_pool boss contribution == ""))
              (boss_tier_pool boss contribution) ":tier" contribution (pos 1) second

-- `BossRewards`
unfoldable pub boss_rewards : Runtime → Config → BossClaim → ℤ → Outcome DungeonRewardPlan
unfolding loot_pool_rewards merge_reward_plan boss_tier_pool
boss_rewards go c req contribution =
    check (not (trim_space req.boss_key == "")) "bossKey is required" (
      found_or (lookup (trim_space req.boss_key) c.bosses) "boss is not configured" >>= λ boss.
      configured_boss_rewards go c req contribution boss)
