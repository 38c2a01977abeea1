-- ===== src/Rules/Settlements/Dungeons.antt =====
-- A validated configuration settles every dungeon floor: `validate` and DungeonRewards of
-- internal/economy/rules/config.go.
use aeon_backend.Base.{some, List, [], ◌∷◌, String, text_key, All, ◌≡◌}
use aeon_backend.Base.Int.{ℤ}
use aeon_backend.Base.Dict.{lookup}
use aeon_backend.Rules.Outcome.{returned, Gives}
use aeon_backend.Rules.Runtime.{Runtime}
use aeon_backend.Rules.Types.{Config, LootPool}
use aeon_backend.Rules.Affixes.Total.{Pools}
use aeon_backend.Rules.Loot.Pools.{loot_pool_rewards}
use aeon_backend.Rules.Loot.Total.{Listed, Scalable, loot_pool_rewards-Gives}
use aeon_backend.Rules.Validation.{validate}
use aeon_backend.Rules.Validation.Parts.{validate-Valid, equipment-Rarities, loot_pools-Scalable}

-- The entries of the loot pools give items, equipment or tokens, in quantities that are int64.
abbrev pub Typed : Runtime → Config → Type 0
Typed go c =
    (id : String) (pool : LootPool)
    → lookup id c.loot_pools ≡ some pool
    → All (Listed go) pool.entries

both {ℓ} :
    {A : Type ℓ} (P Q : A → Type 0) (xs : List A) → All P xs → All Q xs → All (λ x. P x × Q x) xs
both P Q [] h k = tt
both P Q (x ∷ xs) h k = ((h.0, k.0), both P Q xs h.1 k.1)

-- A pool of a validated configuration gives a plan.
pub validated_pool-Gives :
    (go : Runtime) (c : Config) (pool_id op_id ref_id : String)
    (character_id level chapter_id floor_id : ℤ) (pool : LootPool)
    → validate go c ≡ returned tt
    → Pools c
    → Typed go c
    → lookup pool_id c.loot_pools ≡ some pool
    → Gives (loot_pool_rewards go c pool_id op_id ref_id character_id level chapter_id floor_id)
validated_pool-Gives go c pool_id op_id ref_id character_id level chapter_id floor_id pool valid
      pools typed found =
    let v = validate-Valid go c valid in
    let equipment = equipment-Rarities c v.equipment in
    loot_pool_rewards-Gives go c pool_id op_id ref_id character_id level chapter_id floor_id pool
      (equipment.0, pools, equipment.1) found
      (both (Scalable c) (Listed go) pool.entries
        (loot_pools-Scalable go c pool_id pool v.loot_pools found) (typed pool_id pool found))
