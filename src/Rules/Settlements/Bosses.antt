-- ===== src/Rules/Settlements/Bosses.antt =====
-- A validated configuration settles every boss: `validate` and BossRewards of
-- internal/economy/rules/config.go.
use Prim.Native.String.{◌++◌ as text_append}
use aeon_backend.Base.{
  Bool, if◌then◌else◌, Option, none, some, List, [], ◌∷◌, String, text_key, ◌==◌, ◌||◌, ◌&&◌,
  Bool-cases, inl, inr, true, false, All, arith, ◌≡◌, refl, not, ◌⊎◌,
}
use aeon_backend.Base.Int.{ℤ, pos, ltb_ℤ, leb_ℤ}
use aeon_backend.Base.Dict.{lookup}
use aeon_backend.Base.Rows.{All-map}
use aeon_backend.Base.Text.{trim_space, format_int}
use aeon_backend.Dungeon.Items.{DungeonRewardPlan}
use aeon_backend.Rules.Outcome.{Outcome, returned, failed, found_or, ◌>>=◌, check-returned}
use aeon_backend.Rules.Runtime.{Runtime}
use aeon_backend.Rules.Types.{Config, BossDefinition, BossContributionTier, LootPool}
use aeon_backend.Rules.Affixes.Total.{Pools}
use aeon_backend.Rules.Shops.{is_some}
use aeon_backend.Rules.Loot.Pools.{no_plan}
use aeon_backend.Rules.Settlements.{
  BossClaim, add_pool, boss_rewards, boss_tier_pool, configured_boss_rewards, merge_reward_plan,
  tier_pool, with_boss,
}
use aeon_backend.Rules.Settlements.Dungeons.{Typed, validated_pool-Gives}
use aeon_backend.Rules.Validation.{validate}
use aeon_backend.Rules.Validation.Loops.{each-All}
use aeon_backend.Rules.Validation.Parts.{validate-Valid, each-lookup, require-true}
use aeon_backend.Rules.Validation.Places.{named_pool, validate_boss, validate_bosses}

-- The call returns a plan that is marked as a boss's.
abbrev pub BossPlan : Outcome DungeonRewardPlan → Type 0
BossPlan m = (plan : DungeonRewardPlan) × (m ≡ returned plan) × (plan.is_boss ≡ true)

BossPlan-bind :
    (m : Outcome DungeonRewardPlan) (f : DungeonRewardPlan → Outcome DungeonRewardPlan)
    → BossPlan m
    → ((plan : DungeonRewardPlan) → plan.is_boss ≡ true → BossPlan (f plan))
    → BossPlan (m >>= f)
BossPlan-bind m f (plan, found, boss) h =
    let after = h plan boss in (after.0, rw found after.1, after.2)

merged-boss :
    (into from : DungeonRewardPlan)
    → into.is_boss ≡ true
    → (merge_reward_plan into from).is_boss ≡ true
unfolding merge_reward_plan
merged-boss into from h = rw h refl

there : (o : Option LootPool) → is_some o ≡ true → (pool : LootPool) × (o ≡ some pool)
there none t = cc
there (some pool) t = (pool, refl)

known_pool : (empty known : Bool) → (empty || known) ≡ true → empty ≡ false → known ≡ true
known_pool empty known h f = rw f at h

-- The pools of a tier that is reached, or none.
tier_pool-All :
    (P : String → Type 0) (contribution : ℤ) (tiers : List BossContributionTier) (chosen : String)
    → P chosen
    → All (λ (tier : BossContributionTier). P tier.bonus_loot_pool_id) tiers
    → P (tier_pool contribution chosen tiers)
unfolding tier_pool
tier_pool-All P contribution [] chosen p ps = p
tier_pool-All P contribution (tier ∷ tiers) chosen p ps =
    tier_pool-All P contribution tiers _
      (either (
        leb_ℤ tier.min_contribution contribution && not (trim_space tier.bonus_loot_pool_id == "")))
      ps.1
  where
    either : (b : Bool) → P (if b then tier.bonus_loot_pool_id else chosen)
    either true = ps.0
    either false = p

module _ (go : Runtime) (c : Config) (valid : validate go c ≡ returned tt) (pools : Pools c)
    (typed : Typed go c) where
  add_pool-BossPlan :
      (req : BossClaim) (wanted : Bool) (pool_id suffix : String) (chapter_id floor_id : ℤ)
      (plan : DungeonRewardPlan)
      → named_pool c pool_id ≡ true
      → (wanted ≡ true → (pool_id == "") ≡ false)
      → plan.is_boss ≡ true
      → BossPlan (add_pool go c req wanted pool_id suffix chapter_id floor_id plan)
  add_pool-BossPlan req false pool_id suffix chapter_id floor_id plan named some_id boss =
      (plan, refl, boss)
  add_pool-BossPlan req true pool_id suffix chapter_id floor_id plan named some_id boss =
      let pool =
        there (lookup pool_id c.loot_pools) (known_pool (pool_id == "") _ named (some_id refl)) in
      let rewards =
        validated_pool-Gives go c pool_id (text_append req.op_id suffix)
          (text_append "boss-" (format_int req.boss_event_id)) req.character_id (pos 0) chapter_id
          floor_id pool.0 valid pools typed pool.1 in
      (merge_reward_plan plan rewards.0, rw rewards.1 refl, merged-boss plan rewards.0 boss)

  configured-BossPlan :
      (req : BossClaim) (contribution : ℤ) (boss : BossDefinition)
      → validate_boss c boss ≡ returned tt
      → BossPlan (configured_boss_rewards go c req contribution boss)
  unfolding boss_tier_pool
  configured-BossPlan req contribution boss h =
      let first = check-returned (named_pool c boss.participation_loot_pool_id) _ _ h in
      let second = check-returned (named_pool c boss.loot_pool_id) _ _ first.1 in
      let tiers =
        All-map _ _ (λ (tier : BossContributionTier) ok. require-true _ _ ok)
          boss.contribution_tiers (each-All _ boss.contribution_tiers second.1) in
      let tier =
        tier_pool-All (λ id. named_pool c id ≡ true) contribution boss.contribution_tiers "" refl
          tiers in
      BossPlan-bind _ _
        (add_pool-BossPlan req (not (boss.participation_loot_pool_id == ""))
          boss.participation_loot_pool_id ":participation" (pos 0) (pos 0) (with_boss true no_plan)
          first.0 (given _) refl)
        λ one is_one.
          BossPlan-bind _ _
            (add_pool-BossPlan req (ltb_ℤ (pos 0) contribution && not (boss.loot_pool_id == ""))
              boss.loot_pool_id ":main" contribution (pos 0) one second.0 (both_given _ _) is_one)
            λ two is_two.
              add_pool-BossPlan req (not (boss_tier_pool boss contribution == ""))
                (boss_tier_pool boss contribution) ":tier" contribution (pos 1) two tier (given _)
                is_two
    where
      given : (b : Bool) → not b ≡ true → b ≡ false
      given b h = ground arith

      both_given : (a b : Bool) → (a && not b) ≡ true → b ≡ false
      both_given a b h = ground arith

  -- Where `validate` accepts a configuration, whose loot entries are of the three types that are
  -- known and whose affix pools have int64 weights and numbers of rolls in range, `BossRewards` fails
  -- only without a boss key, or with one that is not configured, with the error for it; for every
  -- boss that is configured, and every contribution, it returns a plan, and the plan is marked as a
  -- boss's.
  pub boss_rewards-total :
      (req : BossClaim) (contribution : ℤ)
      → (((trim_space req.boss_key == "") ≡ true)
          × (boss_rewards go c req contribution ≡ failed "bossKey is required"))
        ⊎ ((lookup (trim_space req.boss_key) c.bosses ≡ none)
            × (boss_rewards go c req contribution ≡ failed "boss is not configured"))
        ⊎ BossPlan (boss_rewards go c req contribution)
  unfolding boss_rewards validate_bosses
  boss_rewards-total req contribution = elim (Bool-cases (trim_space req.boss_key == "")) [
    | inl t ↦ inl (t, rw t refl)
    | inr f ↦ inr (
        rw f (
          bosses (lookup (trim_space req.boss_key) c.bosses) λ boss found.
            each-lookup (validate_boss c) (trim_space req.boss_key) boss c.bosses
              (validate-Valid go c valid).bosses found))
  ]
    where
      bosses :
          (o : Option BossDefinition)
          → ((boss : BossDefinition) → o ≡ some boss → validate_boss c boss ≡ returned tt)
          → ((o ≡ none)
              × ((found_or o "boss is not configured" >>= λ boss.
                    configured_boss_rewards go c req contribution boss)
                  ≡ failed "boss is not configured"))
            ⊎ BossPlan (
                found_or o "boss is not configured" >>= λ boss.
                configured_boss_rewards go c req contribution boss)
      bosses none h = inl (refl, refl)
      bosses (some boss) h = inr (configured-BossPlan req contribution boss (h boss refl))
