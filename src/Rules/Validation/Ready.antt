-- ===== src/Rules/Validation/Ready.antt =====
-- What the checks of the floors in `validate` of internal/economy/rules/config.go establish.
use aeon_backend.Base.{
  ℕ, Option, none, some, zero, suc, ◌+◌, ◌<◌, ◌≤◌, String, text_key, ◌==◌, Bool-cases, inl, inr,
  true, length, ◌≡◌, refl, arith, not, subst, nat_key,
}
use aeon_backend.Base.Int.{pos, leb_ℤ, int_key}
use aeon_backend.Base.Dict.{lookup}
use aeon_backend.Base.Text.{trim_space}
use aeon_backend.Rules.Outcome.{returned, found_or, ◌>>=◌, >>=-returned, check-returned}
use aeon_backend.Rules.Types.{Config, LootPool, DungeonFloor}
use aeon_backend.Rules.Shops.{is_some}
use aeon_backend.Rules.Validation.Loops.{has}
use aeon_backend.Rules.Validation.Floors.{
  validate_floors, validate_floor_ids, validate_floor_id, validate_floor, key_of_floor,
}

-- A floor with a pool that is configured.
abbrev pub Ready : Config → DungeonFloor → Type 0
Ready c floor = (pool : LootPool) × (lookup floor.loot_pool_id c.loot_pools ≡ some pool)

floor-Ready :
    (c : Config) (key : String) (floor : DungeonFloor)
    → validate_floor c key floor ≡ returned tt
    → Ready c floor
floor-Ready c key floor h =
    let capped = check-returned (not (leb_ℤ floor.max_exp (pos 0))) _ _ h in
    let named = check-returned (not (trim_space floor.loot_pool_id == "")) _ _ capped.1 in
    let known = check-returned (has floor.loot_pool_id c.loot_pools) _ _ named.1 in
    there (lookup floor.loot_pool_id c.loot_pools) known.0
  where
    there : (o : Option LootPool) → is_some o ≡ true → (pool : LootPool) × (o ≡ some pool)
    there none t = cc
    there (some pool) t = (pool, refl)

floor_id-Ready :
    (c : Config) (floor_id : ℕ)
    → validate_floor_id c floor_id ≡ returned tt
    → (floor : DungeonFloor) × (lookup (key_of_floor floor_id) c.floors ≡ some floor)
      × Ready c floor
floor_id-Ready c floor_id h = found (lookup (key_of_floor floor_id) c.floors) h
  where
    found :
        (o : Option DungeonFloor)
        → (found_or o "dungeons.json missing floor" >>= λ floor.
            validate_floor c (key_of_floor floor_id) floor)
          ≡ returned tt
        → (floor : DungeonFloor) × (o ≡ some floor) × Ready c floor
    found none k = cc
    found (some floor) k = (floor, refl, floor-Ready c (key_of_floor floor_id) floor k)

floor_ids-Ready :
    (c : Config) (from left floor_id : ℕ)
    → validate_floor_ids c from left ≡ returned tt
    → from ≤ floor_id
    → floor_id < from + left
    → validate_floor_id c floor_id ≡ returned tt
unfolding validate_floor_ids
floor_ids-Ready c from zero floor_id h low high = absurd (omega arith)
floor_ids-Ready c from (suc left) floor_id h low high =
    let first = >>=-returned (validate_floor_id c from) _ h in
    elim (Bool-cases (from == floor_id)) [
      | inl same ↦
          subst (λ i. validate_floor_id c i ≡ returned tt) ((nat_key.agrees from floor_id).0 same)
            first.1
      | inr other ↦ floor_ids-Ready c (from + 1) left floor_id first.2 (ground arith) (omega arith)
    ]

-- Each of the thirty floors is configured, and so is its pool.
pub floors-Ready :
    (c : Config) (floor_id : ℕ)
    → validate_floors c ≡ returned tt
    → 1 ≤ floor_id
    → floor_id ≤ 30
    → (floor : DungeonFloor) × (lookup (key_of_floor floor_id) c.floors ≡ some floor)
      × Ready c floor
unfolding validate_floors
floors-Ready c floor_id h low high =
    let thirty = check-returned (length c.floors == 30) _ _ h in
    floor_id-Ready c floor_id (floor_ids-Ready c 1 30 floor_id thirty.1 low (omega arith))
