-- ===== src/Rules/Enhancement/Costs.antt =====
-- What an enhancement costs, where `validate` accepts the configuration: EnhancementRule of
-- internal/economy/rules/config.go.
use aeon_backend.Base.{
  Bool, if◌then◌else◌, Option, none, some, List, [], ◌∷◌, zero, suc, String, text_key, ◌==◌, ◌||◌,
  Bool-cases, inl, inr, true, false, ◌≡◌, refl, arith, not, ◌⊎◌,
}
use aeon_backend.Base.Int.{ℤ, pos, negsuc, ltb_ℤ, leb_ℤ, ◌≤ℤ◌, ◌<ℤ◌, add64, int_key}
use aeon_backend.Base.Dict.{lookup}
use aeon_backend.Rules.Outcome.{Outcome, panicked, failed, returned, check, found_or, ◌>>=◌, Gives}
use aeon_backend.Rules.Types.{Config, EnhancementConfig, EquipmentTemplate, EquipmentRarity}
use aeon_backend.Rules.Draw.Keys.{or_else}
use aeon_backend.Rules.Affixes.{equipment_template, equipment_rarity}
use aeon_backend.Rules.Enhancement.{
  EnhancementCost, element, shorter, stone_cost, gold_cost, template_cost, enhancement_rule,
}
use aeon_backend.Rules.Validation.Parts.{rarities-positive, validate-Valid}
use aeon_backend.Rules.Runtime.{Runtime}
use aeon_backend.Rules.Validation.{validate}

-- An index between one and the length is in range.
element-Gives : (xs : List ℤ) (i : ℤ) → pos 0 <ℤ i → shorter xs i ≡ false → Gives (element xs i)
unfolding element
element-Gives xs (negsuc n) low h = absurd (omega arith)
element-Gives xs (pos zero) low h = absurd (omega arith)
element-Gives [] (pos (suc n)) low h = absurd (ground arith)
element-Gives (x ∷ xs) (pos (suc zero)) low h = (x, refl)
element-Gives (x ∷ xs) (pos (suc (suc n))) low h =
    element-Gives xs (pos (suc n)) (omega arith) (ground arith)

-- What the rule may do for a level: it never panics, and a cost that it returns is right.
abbrev pub Safe : ℤ → Outcome EnhancementCost → Type 0
Safe level panicked = ⊥
Safe level (failed why) = Unit
Safe level (returned cost) =
    (pos 0 <ℤ level)
    × (pos 0 ≤ℤ cost.gold)
    × (((level ≤ℤ pos 5) × (cost.stone_quantity ≡ pos 0))
        ⊎ ((pos 5 <ℤ level) × (pos 0 <ℤ cost.stone_quantity)))

split_or : (a b : Bool) → not (a || b) ≡ true → (a ≡ false) × (b ≡ false)
split_or true b h = cc
split_or false true h = cc
split_or false false h = (refl, refl)

Safe-check :
    (level : ℤ) (test : Bool) (why : String) (rest : Outcome EnhancementCost)
    → (test ≡ true → Safe level rest)
    → Safe level (check test why rest)
Safe-check level true why rest h = h refl
Safe-check level false why rest h = tt

Safe-bind :
    {V : Type 0} (level : ℤ) (m : Outcome V) (f : V → Outcome EnhancementCost)
    → Gives m
    → ((v : V) → Safe level (f v))
    → Safe level (m >>= f)
Safe-bind level panicked f h k = cc (h.1)
Safe-bind level (failed why) f h k = tt
Safe-bind level (returned v) f h k = k v

stone_cost-Safe :
    (e : EnhancementConfig) (template : EquipmentTemplate) (rarity level gold : ℤ)
    → pos 0 <ℤ rarity
    → pos 5 <ℤ level
    → pos 0 ≤ℤ gold
    → Safe level (stone_cost e template rarity level gold)
stone_cost-Safe e template rarity level gold r l g =
    let stone = or_else "" (lookup template.stage e.stone_item_by_stage) in
    let base_costs = or_else [] (lookup template.stage e.stone_base_cost_by_stage_rarity) in
    Safe-check level _ _ _ λ t.
      let long = split_or ((stone == "") || shorter base_costs rarity) _ t in
      let enough = split_or (stone == "") (shorter base_costs rarity) (not_false long.0) in
      Safe-bind level (element base_costs rarity) _ (element-Gives base_costs rarity r enough.1)
        λ base.
          Safe-bind level (element e.stone_progression_by_level level) _
            (element-Gives e.stone_progression_by_level level (omega (arith, l)) long.1)
            λ more.
              Safe-check level (ltb_ℤ (pos 0) (add64 base more)) _ _
                λ positive. (omega (arith, l), g, inr (l, is_positive (add64 base more) positive))
  where
    not_false : {b : Bool} → b ≡ false → not b ≡ true
    not_false {b} h = rw h refl

    is_positive : (n : ℤ) → ltb_ℤ (pos 0) n ≡ true → pos 0 <ℤ n
    is_positive n h = ground arith

gold_cost-Safe :
    (costs : List ℤ) (level : ℤ) (f : ℤ → Outcome EnhancementCost)
    → pos 0 <ℤ level
    → ((gold : ℤ) → pos 0 ≤ℤ gold → Safe level (f gold))
    → Safe level (gold_cost costs level >>= f)
gold_cost-Safe costs level f low h = elim (Bool-cases (shorter costs level)) [
  | inl t ↦ rw t tt
  | inr long ↦ let found = element-Gives costs level low long in rw long (rw found.1 (paid found.0))
]
  where
    paid :
        (gold : ℤ)
        → Safe level
            (check (not (ltb_ℤ gold (pos 0))) "missing gold enhancement cost" (returned gold) >>= f)
    paid gold = elim (Bool-cases (ltb_ℤ gold (pos 0))) [
      | inl t ↦ rw t tt
      | inr n ↦ rw n (h gold (nonneg gold n))
    ]
      where
        nonneg : (n : ℤ) → ltb_ℤ n (pos 0) ≡ false → pos 0 ≤ℤ n
        nonneg n e = ground arith

template_cost-Safe :
    (e : EnhancementConfig) (template : EquipmentTemplate) (rarity level : ℤ)
    → pos 0 <ℤ rarity
    → Safe level (template_cost e template rarity level)
template_cost-Safe e template rarity level r = Safe-check level _ _ _ λ t.
    let low = at_least_one (split_or (ltb_ℤ level (pos 1)) _ t).0 in
    gold_cost-Safe (or_else [] (lookup template.stage e.gold_cost_by_stage)) level _ low
      λ gold nonneg. stones gold low nonneg
  where
    at_least_one : ltb_ℤ level (pos 1) ≡ false → pos 0 <ℤ level
    at_least_one h = ground arith

    stones :
        (gold : ℤ)
        → pos 0 <ℤ level
        → pos 0 ≤ℤ gold
        → Safe level (
            if leb_ℤ level (pos 5)
            then returned (record { gold = gold; stone_item_id = ""; stone_quantity = pos 0 })
            else stone_cost e template rarity level gold)
    stones gold low nonneg = elim (Bool-cases (leb_ℤ level (pos 5))) [
      | inl t ↦ rw t (low, nonneg, inl (ground arith, refl))
      | inr f ↦ rw f (stone_cost-Safe e template rarity level gold r (ground arith) nonneg)
    ]

-- Where `validate` accepts the configuration, `EnhancementRule` panics for no item, rarity and level;
-- and a cost that it returns is for a positive level, its gold is not negative, and it asks for no
-- stones up to level five, and for a positive number of them above.
pub enhancement_rule-Safe :
    (go : Runtime) (c : Config) (item_id : String) (rarity next_level : ℤ)
    → validate go c ≡ returned tt
    → Safe next_level (enhancement_rule c item_id rarity next_level)
unfolding enhancement_rule
enhancement_rule-Safe go c item_id rarity next_level valid =
    let keys = rarities-positive c (validate-Valid go c valid).equipment in
    templates (equipment_template c item_id) (equipment_rarity c rarity) (keys rarity)
  where
    templates :
        (o : Option EquipmentTemplate) (row : Option EquipmentRarity)
        → ((r : EquipmentRarity) → row ≡ some r → pos 0 <ℤ rarity)
        → Safe next_level (
            found_or o "equipment template is not configured" >>= λ template.
            found_or row "equipment rarity is not configured" >>= λ r.
            template_cost c.equipment.enhancement template rarity next_level)
    templates none row h = tt
    templates (some template) none h = tt
    templates (some template) (some r) h =
        template_cost-Safe c.equipment.enhancement template rarity next_level (h r refl)
