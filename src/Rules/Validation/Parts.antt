-- ===== src/Rules/Validation/Parts.antt =====
-- What a configuration that `validate` of internal/economy/rules/config.go accepts satisfies.
use aeon_backend.Base.{
  Bool, if◌then◌else◌, some, List, [], ◌∷◌, String, text_key, ◌==◌, true, false, All, length, ◌≡◌,
  ◌≢◌, refl, arith, map, not, ◌&&◌, ◌||◌, nat_key,
}
use aeon_backend.Base.Int.{ℤ, pos, leb_ℤ, ◌≤ℤ◌, int_key, ◌<ℤ◌}
use aeon_backend.Base.Dict.{Dict, lookup}
use aeon_backend.Base.Rows.{All-map, All-lookup}
use aeon_backend.Base.Text.{trim_space}
use aeon_backend.Rules.Outcome.{Outcome, returned, >>=-returned, check-returned}
use aeon_backend.Rules.Runtime.{Runtime, float_le, float_zero}
use aeon_backend.Rules.Types.{Config, LootEntry, LootPool, EquipmentRarity}
use aeon_backend.Rules.Loot.Templates.{is_empty, templates_by_stage_and_series}
use aeon_backend.Rules.Loot.Total.{Scalable}
use aeon_backend.Rules.Affixes.Total.{Rarities}
use aeon_backend.Rules.Validation.{validate}
use aeon_backend.Rules.Validation.Loops.{each, each-All, has, require}
use aeon_backend.Rules.Validation.Goods.{validate_items, validate_shops}
use aeon_backend.Rules.Validation.Gear.{
  validate_equipment, validate_enhancement, validate_affix_pools, validate_stage, validate_rarity,
}
use aeon_backend.Rules.Validation.Prizes.{validate_lottery, validate_bounties}
use aeon_backend.Rules.Validation.Places.{
  validate_loot_pools, validate_activities, validate_bosses, validate_recipes, validate_marketplace,
  validate_loot_entry, validate_level_scaled, validate_candidates,
}
use aeon_backend.Rules.Validation.Floors.{validate_floors}

-- Each part of the validation has passed.
pub record Valid (go : Runtime) (c : Config) : Type 0 where
  pub items : validate_items c ≡ returned tt
  pub shops : validate_shops c ≡ returned tt
  pub equipment : validate_equipment c ≡ returned tt
  pub enhancement : validate_enhancement c ≡ returned tt
  pub lottery : validate_lottery c ≡ returned tt
  pub bounties : validate_bounties c ≡ returned tt
  pub loot_pools : validate_loot_pools go c ≡ returned tt
  pub affix_pools : validate_affix_pools c ≡ returned tt
  pub floors : validate_floors c ≡ returned tt
  pub activities : validate_activities c ≡ returned tt
  pub bosses : validate_bosses c ≡ returned tt
  pub recipes : validate_recipes go c ≡ returned tt
  pub marketplace : validate_marketplace c ≡ returned tt

pub validate-Valid : (go : Runtime) (c : Config) → validate go c ≡ returned tt → Valid go c
unfolding validate
validate-Valid go c h =
    let a = >>=-returned (validate_items c) _ h in
    let b = >>=-returned (validate_shops c) _ a.2 in
    let d = >>=-returned (validate_equipment c) _ b.2 in
    let e = >>=-returned (validate_enhancement c) _ d.2 in
    let f = >>=-returned (validate_lottery c) _ e.2 in
    let g = >>=-returned (validate_bounties c) _ f.2 in
    let i = >>=-returned (validate_loot_pools go c) _ g.2 in
    let j = >>=-returned (validate_affix_pools c) _ i.2 in
    let k = >>=-returned (validate_floors c) _ j.2 in
    let l = >>=-returned (validate_activities c) _ k.2 in
    let m = >>=-returned (validate_bosses c) _ l.2 in
    let n = >>=-returned (validate_recipes go c) _ m.2 in
    record {
      items = a.1;
      shops = b.1;
      equipment = d.1;
      enhancement = e.1;
      lottery = f.1;
      bounties = g.1;
      loot_pools = i.1;
      affix_pools = j.1;
      floors = k.1;
      activities = l.1;
      bosses = m.1;
      recipes = n.1;
      marketplace = n.2;
    }

pub require-true : (test : Bool) (why : String) → require test why ≡ returned tt → test ≡ true
require-true test why h = (check-returned test why (returned tt) h).0

-- A row that is found, where every row has passed a check of its value.
pub each-lookup {ℓ} :
    {V : Type ℓ} (test : V → Outcome (Unit {0})) (k : String) (v : V) (m : Dict String V)
    → each (λ (row : String × V). test row.1) m ≡ returned tt
    → lookup k m ≡ some v
    → test v ≡ returned tt
each-lookup test k v m h found =
    All-lookup (λ row. test row.1 ≡ returned tt) k v m (each-All _ m h) found

some_row : {A : Type 0} (m : List A) (b : Bool) → ((length m == 7) && b) ≡ true → m ≢ []
some_row [] b h = cc
some_row (x ∷ m) b h = λ p. cc

positive_count : (a b : Bool) (n : ℤ) → not (a || b || leb_ℤ n (pos 0)) ≡ true → pos 0 ≤ℤ n
positive_count a b n h = ground arith

-- There are stages, and every rarity has a positive number of affixes.
pub equipment-Rarities :
    (c : Config)
    → validate_equipment c ≡ returned tt
    → (c.equipment.stage_multipliers ≢ []) × Rarities c
unfolding validate_equipment
equipment-Rarities c h =
    let counted =
      check-returned
        ((length c.equipment.stage_multipliers == 7) && (length c.equipment.rarities == 6)) _ _ h in
    let stages = >>=-returned (each validate_stage c.equipment.stage_multipliers) _ counted.1 in
    let rarities = >>=-returned (each validate_rarity c.equipment.rarities) _ stages.2 in
    (
      some_row c.equipment.stage_multipliers (length c.equipment.rarities == 6) counted.0,
      λ rarity row found.
          positive_count (leb_ℤ rarity (pos 0)) (float_le row.multiplier float_zero) row.affix_count
            (require-true _ _ (
              All-lookup (λ r. validate_rarity r ≡ returned tt) rarity row c.equipment.rarities
                (each-All validate_rarity c.equipment.rarities rarities.1) found)),
    )

positive_key : (a b : Bool) (n : ℤ) → not (leb_ℤ n (pos 0) || a || b) ≡ true → pos 0 <ℤ n
positive_key a b n h = ground arith

-- Every rarity that is configured is positive.
pub rarities-positive :
    (c : Config)
    → validate_equipment c ≡ returned tt
    → (rarity : ℤ) (row : EquipmentRarity) → lookup rarity c.equipment.rarities ≡ some row
    → pos 0 <ℤ rarity
unfolding validate_equipment
rarities-positive c h rarity row found =
    let counted =
      check-returned
        ((length c.equipment.stage_multipliers == 7) && (length c.equipment.rarities == 6)) _ _ h in
    let stages = >>=-returned (each validate_stage c.equipment.stage_multipliers) _ counted.1 in
    let rarities = >>=-returned (each validate_rarity c.equipment.rarities) _ stages.2 in
    positive_key (float_le row.multiplier float_zero) (leb_ℤ row.affix_count (pos 0)) rarity (
      require-true _ _ (
        All-lookup (λ r. validate_rarity r ≡ returned tt) rarity row c.equipment.rarities
          (each-All validate_rarity c.equipment.rarities rarities.1) found))

All-keys {ℓ κ} :
    {V : Type ℓ} (P : ℤ → Type κ) (m : List (ℤ × V))
    → All (λ r. P r.0) m
    → All P (map (λ (row : ℤ × V). row.0) m)
All-keys P [] h = tt
All-keys P (row ∷ m) h = (h.0, All-keys P m h.1)

candidates : (b : Bool) → not b ≡ true → b ≡ false
candidates true h = cc
candidates false h = refl

level_scaled-Scalable :
    (go : Runtime) (c : Config) (entry : LootEntry)
    → validate_level_scaled go c entry ≡ returned tt
    → Scalable c entry
level_scaled-Scalable go c entry valid scaled =
    let kind = check-returned (go.lower (trim_space entry.reward_type) == "equipment") _ _ valid in
    let rarity = check-returned (has entry.rarity c.equipment.rarities) _ _ kind.1 in
    let mode =
      check-returned (trim_space entry.equipment_stage_mode == "character_level_floor") _ _
        rarity.1 in
    (
      mode.0,
      All-keys
          (λ stage. is_empty (templates_by_stage_and_series c stage entry.equipment_series) ≡ false)
          c.equipment.stage_multipliers
          (All-map _ _ (λ row ok. candidates _ (require-true _ _ ok)) c.equipment.stage_multipliers
            (each-All (validate_candidates c entry.equipment_series) c.equipment.stage_multipliers
              mode.1)),
    )

loot_entry-Scalable :
    (go : Runtime) (c : Config) (entry : LootEntry)
    → validate_loot_entry go c entry ≡ returned tt
    → Scalable c entry
loot_entry-Scalable go c entry valid scaled =
    let first =
      >>=-returned
        (if trim_space entry.equipment_stage_mode == ""
          then returned tt
          else validate_level_scaled go c entry)
        _ valid in
    level_scaled-Scalable go c entry (rw scaled at (first.1)) scaled

-- The entries of a pool that is found can be scaled to every stage, where they are to be.
pub loot_pools-Scalable :
    (go : Runtime) (c : Config) (pool_id : String) (pool : LootPool)
    → validate_loot_pools go c ≡ returned tt
    → lookup pool_id c.loot_pools ≡ some pool
    → All (Scalable c) pool.entries
unfolding validate_loot_pools
loot_pools-Scalable go c pool_id pool h found =
    All-map _ _ (loot_entry-Scalable go c) pool.entries (
      each-All (validate_loot_entry go c) pool.entries (
        each-lookup (λ (p : LootPool). each (validate_loot_entry go c) p.entries) pool_id pool
          c.loot_pools h found))
