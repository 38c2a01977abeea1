-- ===== src/Rules/Loot/Total.antt =====
-- Loot is always rolled: lootPoolRewards of internal/economy/rules/config.go returns a plan where the
-- configuration is in order.
use aeon_backend.Base.{
  ℕ, if◌then◌else◌, some, List, [], ◌∷◌, zero, suc, ◌+◌, ◌<◌, String, text_key, ◌==◌, Bool-cases,
  inl, inr, true, false, All, length, ◌≡◌, ◌≢◌, refl, arith, map, ◌⊎◌,
}
use aeon_backend.Base.Int.{ℤ, pos, pos_part, IsInt64, leb_ℤ}
use aeon_backend.Base.Dict.{lookup}
use aeon_backend.Base.Text.{trim_space}
use aeon_backend.Dungeon.Items.{DungeonRewardPlan}
use aeon_backend.Rules.Outcome.{returned, Gives, Gives-bind}
use aeon_backend.Rules.Runtime.{Runtime}
use aeon_backend.Rules.Types.{Config, LootEntry, LootPool}
use aeon_backend.Rules.Draw.Quantity.{draw_lem, roll_quantity_range}
use aeon_backend.Rules.Affixes.Total.{Pools, Rarities, roll_reward_affixes-Gives}
use aeon_backend.Rules.Names.{seed}
use aeon_backend.Rules.Loot.Stages.{equipment_stage_for_level}
use aeon_backend.Rules.Loot.Stages.Choice.{equipment_stage_for_level-All}
use aeon_backend.Rules.Loot.Templates.{
  is_empty, nth, choose, templates_by_stage_and_series, roll_level_scaled,
}
use aeon_backend.Rules.Loot.Pools.{
  Settlement, entry_item, equipment_grant, equipment_grants, add_reward, misses, roll_entry,
  roll_entries, with_items, loot_pool_rewards, settlement, no_plan, item_grant, with_tokens,
}

nth-Gives {ℓ} : {A : Type ℓ} (n : ℕ) (xs : List A) → n < length xs → Gives (nth n xs)
nth-Gives n [] h = absurd (omega arith)
nth-Gives zero (x ∷ xs) h = (x, refl)
nth-Gives (suc n) (x ∷ xs) h = nth-Gives n xs (omega arith)

-- A choice from a list that is not empty.
pub choose-Gives {ℓ} :
    {A : Type ℓ} (go : Runtime) (xs : List A) (rng : ℕ)
    → is_empty xs ≡ false
    → Gives (choose go xs rng)
unfolding choose
choose-Gives go [] rng h = cc
choose-Gives go (x ∷ xs) rng h =
    let drawn = draw_lem go (pos (length (x ∷ xs))) rng (omega arith) in
    let found = nth-Gives drawn.0 (x ∷ xs) (omega (arith, drawn.3)) in
    ((found.0, drawn.1), rw drawn.2 (rw found.1 refl))

-- An entry with a stage mode names the one that is supported, and has a candidate for every stage.
abbrev pub Scalable : Config → LootEntry → Type 0
Scalable c entry =
    (trim_space entry.equipment_stage_mode == "") ≡ false
    → ((trim_space entry.equipment_stage_mode == "character_level_floor") ≡ true)
      × All
          (λ stage. is_empty (templates_by_stage_and_series c stage entry.equipment_series) ≡ false)
          (map (λ (row : ℤ × ℕ). row.0) c.equipment.stage_multipliers)

-- An entry gives items, equipment or tokens.
abbrev pub Known : Runtime → LootEntry → Type 0
Known go entry =
    ((go.lower entry.reward_type == "item") ≡ true)
    ⊎ ((go.lower entry.reward_type == "equipment") ≡ true)
    ⊎ ((go.lower entry.reward_type == "token") ≡ true)

-- An entry is of a known type, and its quantities are int64.
abbrev pub Listed : Runtime → LootEntry → Type 0
Listed go entry = Known go entry × IsInt64 entry.quantity_min × IsInt64 entry.quantity_max

-- An entry is in order.
abbrev pub Sound : Runtime → Config → LootEntry → Type 0
Sound go c entry = Scalable c entry × Listed go entry

-- A configuration is in order: it has stages, and its affix pools and rarities are in order.
abbrev pub Fit : Config → Type 0
Fit c = (c.equipment.stage_multipliers ≢ []) × Pools c × Rarities c

roll_level_scaled-Gives :
    (go : Runtime) (c : Config) (entry : LootEntry) (level : ℤ) (rng : ℕ)
    → Fit c
    → Scalable c entry
    → (trim_space entry.equipment_stage_mode == "") ≡ false
    → Gives (roll_level_scaled go c entry level rng)
unfolding roll_level_scaled
roll_level_scaled-Gives go c entry level rng fit scalable scaled =
    let some_candidates =
      equipment_stage_for_level-All
        (λ stage. is_empty (templates_by_stage_and_series c stage entry.equipment_series) ≡ false) c
        level fit.0 (scalable scaled).1 in
    rw (scalable scaled).0 (
      rw some_candidates (
        choose-Gives go
          (templates_by_stage_and_series c (equipment_stage_for_level c level)
            entry.equipment_series)
          rng some_candidates))

entry_item-Gives :
    (go : Runtime) (c : Config) (entry : LootEntry) (level : ℤ) (rng : ℕ)
    → Fit c
    → Scalable c entry
    → Gives (entry_item go c entry level rng)
entry_item-Gives go c entry level rng fit scalable =
    elim (Bool-cases (trim_space entry.equipment_stage_mode == "")) [
      | inl t ↦ ((entry.item_id, rng), rw t refl)
      | inr f ↦
          let rolled = roll_level_scaled-Gives go c entry level rng fit scalable f in
          ((rolled.0.0.item_id, rolled.0.1), rw f (rw rolled.1 refl))
    ]

equipment_grants-Gives :
    (go : Runtime) (c : Config) (to : Settlement) (index : ℕ) (entry : LootEntry) (left i rng : ℕ)
    → Fit c
    → Scalable c entry
    → Gives (equipment_grants go c to index entry left i rng)
unfolding equipment_grants
equipment_grants-Gives go c to index entry zero i rng fit scalable = (([], rng), refl)
equipment_grants-Gives go c to index entry (suc left) i rng fit scalable =
    Gives-bind (equipment_grant go c to index entry i rng) _
      (Gives-bind (entry_item go c entry to.character_level rng) _
        (entry_item-Gives go c entry to.character_level rng fit scalable)
        λ chosen e.
          Gives-bind _ _
            (roll_reward_affixes-Gives go c chosen.0 entry.rarity entry.affix_pool_id chosen.1 fit.1
              fit.2)
            λ affixes e'. (_, refl))
      λ grant e.
        Gives-bind (equipment_grants go c to index entry left (i + 1) grant.1) _
          (equipment_grants-Gives go c to index entry left (i + 1) grant.1 fit scalable)
          λ rest e'. (_, refl)

add_reward-Gives :
    (go : Runtime) (c : Config) (to : Settlement) (index : ℕ) (entry : LootEntry) (quantity : ℤ)
    (plan : DungeonRewardPlan) (rng : ℕ)
    → Fit c
    → Scalable c entry
    → Known go entry
    → Gives (add_reward go c to index entry quantity plan rng)
unfolding add_reward
add_reward-Gives go c to index entry quantity plan rng fit scalable known =
    let kind = go.lower entry.reward_type in
    elim (Bool-cases (kind == "item")) [
      | inl t ↦ (
        (with_items plan (item_grant c entry.item_id quantity entry.rarity ∷ []), rng),
        rw t refl,
      )
      | inr f ↦ elim (Bool-cases (kind == "equipment")) [
        | inl t ↦
            let grants =
              equipment_grants-Gives go c to index entry (pos_part quantity) 0 rng fit scalable in
            ((with_items plan grants.0.0, grants.0.1), rw f (rw t (rw grants.1 refl)))
        | inr g ↦ elim (Bool-cases (kind == "token")) [
          | inl t ↦ ((with_tokens plan quantity, rng), rw f (rw g (rw t refl)))
          | inr h ↦ absurd (unknown known f g h)
        ]
      ]
    ]
  where
    unknown :
        Known go entry
        → (go.lower entry.reward_type == "item") ≡ false
        → (go.lower entry.reward_type == "equipment") ≡ false
        → (go.lower entry.reward_type == "token") ≡ false
        → ⊥
    unknown known f g h = elim known [
      | inl k ↦ cc
      | inr rest ↦ elim rest [ inl k ↦ cc | inr k ↦ cc ]
    ]

roll_entry-Gives :
    (go : Runtime) (c : Config) (to : Settlement) (index : ℕ) (entry : LootEntry)
    (plan : DungeonRewardPlan) (rng : ℕ)
    → Fit c
    → Sound go c entry
    → Gives (roll_entry go c to index entry plan rng)
unfolding roll_entry
roll_entry-Gives go c to index entry plan rng fit sound =
    elim (Bool-cases ((misses go entry rng).0)) [
      | inl t ↦ ((plan, (misses go entry rng).1), rw t refl)
      | inr f ↦
          let quantity =
            roll_quantity_range go entry.quantity_min entry.quantity_max (misses go entry rng).1
              sound.1.1 sound.1.2 in
          rw f (rw quantity.2 (positive quantity.0 quantity.1))
    ]
  where
    positive :
        (n : ℤ) (rng' : ℕ)
        → Gives {V = DungeonRewardPlan × ℕ} (
            if leb_ℤ n (pos 0)
            then returned (plan, rng')
            else add_reward go c to index entry n plan rng')
    positive n rng' = elim (Bool-cases (leb_ℤ n (pos 0))) [
      | inl t ↦ ((plan, rng'), rw t refl)
      | inr f ↦ rw f (add_reward-Gives go c to index entry n plan rng' fit sound.0 sound.1.0)
    ]

roll_entries-Gives :
    (go : Runtime) (c : Config) (to : Settlement) (index : ℕ) (entries : List LootEntry)
    (plan : DungeonRewardPlan) (rng : ℕ)
    → Fit c
    → All (Sound go c) entries
    → Gives (roll_entries go c to index entries plan rng)
unfolding roll_entries
roll_entries-Gives go c to index [] plan rng fit sound = (plan, refl)
roll_entries-Gives go c to index (entry ∷ entries) plan rng fit sound =
    Gives-bind (roll_entry go c to index entry plan rng) _
      (roll_entry-Gives go c to index entry plan rng fit sound.0)
      λ next e. roll_entries-Gives go c to (index + 1) entries next.0 next.1 fit sound.1

-- `lootPoolRewards` of a pool that is configured and in order returns a plan, whatever is drawn.
pub loot_pool_rewards-Gives :
    (go : Runtime) (c : Config) (pool_id op_id ref_id : String)
    (character_id level chapter_id floor_id : ℤ) (pool : LootPool)
    → Fit c
    → lookup pool_id c.loot_pools ≡ some pool
    → All (Sound go c) pool.entries
    → Gives (loot_pool_rewards go c pool_id op_id ref_id character_id level chapter_id floor_id)
unfolding loot_pool_rewards
loot_pool_rewards-Gives go c pool_id op_id ref_id character_id level chapter_id floor_id pool fit
      found sound =
    rw found (
      roll_entries-Gives go c (settlement op_id ref_id level) 0 pool.entries no_plan
        (go.pcg (seed op_id ref_id character_id chapter_id floor_id) 0x9e3779b97f4a7c15) fit sound)
