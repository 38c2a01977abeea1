-- ===== src/Rules/Affixes.antt =====
-- The affixes that equipment is given, of internal/economy/rules/config.go: EquipmentTemplate,
-- EquipmentRarity, rollAffixes, rollRewardAffixes, rollEquipmentAffixes, weightedEligibleAffix and
-- weightedAffix. The capacity of a slice is not modelled, except that a negative one panics.
pub mod Eligible
pub mod Semantic
pub mod Total
use aeon_backend.Base.{
  ℕ, Bool, if◌then◌else◌, Option, none, some, List, [], ◌∷◌, ◌++◌, zero, suc, ◌+◌, ◌&&◌, String,
  text_key, true, false, not, length,
}
use Prim.Native.String
use aeon_backend.Base.Int.{ℤ, pos, pos_part, leb_ℤ, ltb_ℤ, add64, sub64, int_key}
use aeon_backend.Base.Dict.{Dict, lookup, insert}
use aeon_backend.Base.Text.{trim_space, format_int}
use aeon_backend.Dungeon.Items.{EquipmentAffix}
use aeon_backend.Rules.Outcome.{Outcome, panicked, returned, ◌>>=◌}
use aeon_backend.Rules.Runtime.{Runtime, float_lt}
use aeon_backend.Rules.Types.{Config, EquipmentTemplate, EquipmentRarity, AffixConfig, AffixPool}
use aeon_backend.Rules.Draw.{draw, total_weight, pick_row}
use aeon_backend.Rules.Draw.Weighted.{pick_below}
use aeon_backend.Rules.Draw.Keys.{or_else, weight_of}

-- `EquipmentTemplate`
unfoldable pub equipment_template : Config → String → Option EquipmentTemplate
equipment_template c item_id = lookup (trim_space item_id) c.equipment.by_item_id

-- `EquipmentRarity`
abbrev pub equipment_rarity : Config → ℤ → Option EquipmentRarity
equipment_rarity c rarity = lookup rarity c.equipment.rarities

-- The test on a row in the loops of `weightedEligibleAffix`.
abbrev pub eligible : Dict String ℤ → AffixConfig → Bool
eligible counts row = ltb_ℤ (pos 0) row.weight && ltb_ℤ (weight_of counts row.affix_id) (pos 2)

abbrev pub affix_weight : AffixConfig → ℤ
affix_weight row = row.weight

-- `weightedEligibleAffix`
unfoldable pub weighted_eligible_affix :
    Runtime → List AffixConfig → Dict String ℤ → ℕ → Outcome (Option AffixConfig × ℕ)
unfolding total_weight pick_row
weighted_eligible_affix go rows counts rng =
    let total = total_weight (eligible counts) affix_weight (pos 0) rows in
    if leb_ℤ total (pos 0)
    then returned (none, rng)
    else (draw go total rng >>= λ drawn.
        returned (pick_row (eligible counts) affix_weight drawn.0 rows, drawn.1))

-- `fmt.Sprintf("a%d", i+1)`
abbrev pub instance_name : ℕ → String
instance_name i = String.◌++◌ "a" (format_int (pos (i + 1)))

abbrev pub semantic_affix : ℕ → AffixConfig → EquipmentAffix
semantic_affix i affix = record {
  affix_id = affix.affix_id;
  instance_id = instance_name i;
  enhance_hits = pos 0;
  stat = "";
  value = 0;
}

-- `counts[affix.AffixID]++`
abbrev pub counted : AffixConfig → Dict String ℤ → Dict String ℤ
counted affix counts =
    insert affix.affix_id (add64 (weight_of counts affix.affix_id) (pos 1)) counts

-- The loop of `rollEquipmentAffixes`, on the rounds left.
unfoldable pub roll_eligible :
    Runtime → List AffixConfig → ℕ → ℕ → Dict String ℤ → ℕ → Outcome (List EquipmentAffix × ℕ)
unfolding weighted_eligible_affix
roll_eligible go rows zero i counts rng = returned ([], rng)
roll_eligible go rows (suc left) i counts rng =
    weighted_eligible_affix go rows counts rng >>= λ picked. elim (picked.0) [
      | none ↦ returned ([], picked.1)
      | some affix ↦
          roll_eligible go rows left (i + 1) (counted affix counts) (picked.1) >>= λ rest.
          returned (semantic_affix i affix ∷ rest.0, rest.1)
    ]

-- The rolls for a rarity from a pool, or none where one of them is not configured.
abbrev pub roll_configured :
    Runtime → Option EquipmentRarity → Option AffixPool → ℕ → Outcome (List EquipmentAffix × ℕ)
roll_configured go (some rarity) (some pool) rng =
    if ltb_ℤ rarity.affix_count (pos 0)
    then panicked
    else roll_eligible go pool.affixes (pos_part rarity.affix_count) 0 [] rng
roll_configured go _ _ rng = returned ([], rng)

abbrev pub template_affixes :
    Runtime → Config → Option EquipmentTemplate → ℤ → ℕ → Outcome (List EquipmentAffix × ℕ)
template_affixes go c none rarity rng = returned ([], rng)
template_affixes go c (some template) rarity rng =
    roll_configured go (equipment_rarity c rarity) (lookup template.affix_pool_id c.affix_pools) rng

-- `rollEquipmentAffixes`
unfoldable pub roll_equipment_affixes :
    Runtime → Config → String → ℤ → ℕ → Outcome (List EquipmentAffix × ℕ)
unfolding roll_eligible
roll_equipment_affixes go c item_id rarity rng =
    template_affixes go c (equipment_template c item_id) rarity rng

-- `weightedAffix`
abbrev pub positive_weight : AffixConfig → Bool
positive_weight row = ltb_ℤ (pos 0) row.weight

abbrev pub row_at : ℕ → List AffixConfig → Option AffixConfig
row_at n [] = none
row_at zero (row ∷ rows) = some row
row_at (suc n) (row ∷ rows) = row_at n rows

abbrev pub last_row : List AffixConfig → Option AffixConfig
last_row [] = none
last_row (row ∷ []) = some row
last_row (row ∷ second ∷ rows) = last_row (second ∷ rows)

-- A row of the slice, whose index is in range.
abbrev pub indexed : Option AffixConfig → ℕ → Outcome (AffixConfig × ℕ)
indexed none rng = panicked
indexed (some row) rng = returned (row, rng)

unfoldable pub weighted_affix : Runtime → List AffixConfig → ℕ → Outcome (AffixConfig × ℕ)
unfolding total_weight pick_row
weighted_affix go rows rng =
    let total = total_weight positive_weight affix_weight (pos 0) rows in
    if leb_ℤ total (pos 0)
    then (draw go (pos (length rows)) rng >>= λ drawn.
        indexed (row_at (pos_part drawn.0) rows) drawn.1)
    else (pick_below positive_weight affix_weight go total rows rng >>= λ picked. elim (picked.0) [
      | none ↦ indexed (last_row rows) picked.1
      | some row ↦ returned (row, picked.1)
    ])

-- The value of a rolled affix: between the ends, or the lower one.
abbrev pub rolled_value : Runtime → AffixConfig → ℕ → ℕ × ℕ
rolled_value go affix rng =
    if float_lt affix.min affix.max
    then (
      go.plus affix.min (go.times (go.float64 rng).0 (go.minus affix.max affix.min)),
      (go.float64 rng).1,
    )
    else (affix.min, rng)

abbrev pub valued_affix : AffixConfig → ℕ → EquipmentAffix
valued_affix affix value = record {
  affix_id = affix.affix_id;
  instance_id = "";
  enhance_hits = pos 0;
  stat = affix.stat;
  value = value;
}

-- The loop of `rollAffixes`, on the rounds left.
unfoldable pub roll_valued : Runtime → List AffixConfig → ℕ → ℕ → Outcome (List EquipmentAffix × ℕ)
unfolding weighted_affix float_lt
roll_valued go rows zero rng = returned ([], rng)
roll_valued go rows (suc left) rng = weighted_affix go rows rng >>= λ picked.
    roll_valued go rows left (rolled_value go picked.0 picked.1).1 >>= λ rest.
    returned (valued_affix picked.0 (rolled_value go picked.0 picked.1).0 ∷ rest.0, rest.1)

-- The number of rolls of a pool.
abbrev pub rolls_of : Runtime → AffixPool → ℕ → Outcome (ℤ × ℕ)
rolls_of go pool rng =
    if ltb_ℤ pool.rolls.min pool.rolls.max
    then (draw go (add64 (sub64 pool.rolls.max pool.rolls.min) (pos 1)) rng >>= λ drawn.
        returned (add64 pool.rolls.min drawn.0, drawn.1))
    else returned (pool.rolls.min, rng)

-- The rolls from a pool that has some rows.
unfoldable pub pool_affixes :
    Runtime → AffixPool → List AffixConfig → ℕ → Outcome (List EquipmentAffix × ℕ)
unfolding draw roll_valued
pool_affixes go pool [] rng = returned ([], rng)
pool_affixes go pool (row ∷ rows) rng = rolls_of go pool rng >>= λ rolls.
    if leb_ℤ rolls.0 (pos 0)
    then returned ([], rolls.1)
    else roll_valued go (row ∷ rows) (pos_part rolls.0) rolls.1

abbrev pub found_affixes : Runtime → Option AffixPool → ℕ → Outcome (List EquipmentAffix × ℕ)
found_affixes go none rng = returned ([], rng)
found_affixes go (some pool) rng = pool_affixes go pool pool.affixes rng

-- `rollAffixes`
unfoldable pub roll_affixes : Runtime → Config → String → ℕ → Outcome (List EquipmentAffix × ℕ)
unfolding pool_affixes
roll_affixes go c pool_id rng = found_affixes go (lookup pool_id c.affix_pools) rng

-- `rollRewardAffixes`
unfoldable pub roll_reward_affixes :
    Runtime → Config → String → ℤ → String → ℕ → Outcome (List EquipmentAffix × ℕ)
unfolding roll_affixes roll_equipment_affixes
roll_reward_affixes go c item_id rarity fallback rng = elim (equipment_template c item_id) [
  | none ↦ roll_affixes go c fallback rng
  | some template ↦ roll_equipment_affixes go c item_id rarity rng
]
