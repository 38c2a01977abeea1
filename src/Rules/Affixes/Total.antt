-- ===== src/Rules/Affixes/Total.antt =====
-- The affixes of a reward are always rolled: rollRewardAffixes of internal/economy/rules/config.go
-- neither panics nor fails where the configuration is in order.
use aeon_backend.Base.{
  ℕ, if◌then◌else◌, Option, none, some, List, [], ◌∷◌, zero, suc, ◌<◌, String, text_key, Bool-cases,
  Option-cases, inl, inr, true, false, length, ◌≡◌, refl, arith, ◌∙◌, ◌^◌, ◌-◌,
}
use aeon_backend.Base.Int.{
  ℤ, pos, pos_part, leb_ℤ, ltb_ℤ, add64, sub64, int_key, IsInt64, ◌≤ℤ◌, ◌<ℤ◌, ◌+ℤ◌, ◌-ℤ◌, int_laws,
  add64_nonneg, sub64_nonneg,
}
use aeon_backend.Base.Dict.{lookup}
use aeon_backend.Base.Rows.{All-map}
use aeon_backend.Dungeon.Items.{EquipmentAffix}
use aeon_backend.Rules.Outcome.{returned, ◌>>=◌, Gives, Gives-bind}
use aeon_backend.Rules.Runtime.{Runtime}
use aeon_backend.Rules.Types.{Config, EquipmentTemplate, EquipmentRarity, AffixConfig, AffixPool}
use aeon_backend.Rules.Draw.{draw, total_weight}
use aeon_backend.Rules.Draw.Quantity.{draw_lem}
use aeon_backend.Rules.Draw.Weighted.{Weighs, pick_weighted_lem}
use aeon_backend.Rules.Affixes.{
  affix_weight, positive_weight, row_at, weighted_affix, rolled_value, roll_valued, rolls_of,
  roll_affixes, roll_reward_affixes, roll_configured, roll_equipment_affixes, equipment_template,
  equipment_rarity, found_affixes, pool_affixes, template_affixes,
}
use aeon_backend.Rules.Affixes.Eligible.{Weights}
use aeon_backend.Rules.Affixes.Semantic.{roll_eligible_lem, nothing_counted, nonneg_count}

-- An index below the length is in range.
row_at-found :
    (n : ℕ) (rows : List AffixConfig)
    → n < length rows
    → (row : AffixConfig) × (row_at n rows ≡ some row)
row_at-found n [] h = absurd (omega arith)
row_at-found zero (row ∷ rows) h = (row, refl)
row_at-found (suc n) (row ∷ rows) h = row_at-found n rows (omega arith)

Weighs-positive_weight :
    (row : AffixConfig) → IsInt64 (affix_weight row) → Weighs positive_weight affix_weight row
Weighs-positive_weight row fits t = positive (affix_weight row) fits t
  where
    positive :
        (w : ℤ) → IsInt64 w → ltb_ℤ (pos 0) w ≡ true → (pos 0 ≤ℤ w) × (w <ℤ pos 9223372036854775808)
    positive w fits t = ground arith

not_positive : (w : ℤ) → leb_ℤ w (pos 0) ≡ false → pos 0 <ℤ w
not_positive w f = ground arith

-- `weightedAffix` of at least one row returns a row.
weighted_affix-Gives :
    (go : Runtime) (row : AffixConfig) (rows : List AffixConfig) (rng : ℕ)
    → Weights (row ∷ rows)
    → Gives (weighted_affix go (row ∷ rows) rng)
unfolding weighted_affix
weighted_affix-Gives go row rows rng fits =
    elim (Bool-cases
      (leb_ℤ (total_weight positive_weight affix_weight (pos 0) (row ∷ rows)) (pos 0))) [
        | inl t ↦
            let drawn = draw_lem go (pos (length (row ∷ rows))) rng (omega arith) in
            let found = row_at-found drawn.0 (row ∷ rows) (omega (arith, drawn.3)) in
            ((found.0, drawn.1), rw t (rw drawn.2 (rw found.1 refl)))
        | inr f ↦
            let picked =
              pick_weighted_lem positive_weight affix_weight (λ row. IsInt64 (affix_weight row)) go
                (row ∷ rows) rng (All-map _ _ Weighs-positive_weight (row ∷ rows) fits) fits
                (not_positive (total_weight positive_weight affix_weight (pos 0) (row ∷ rows)) f) in
            ((picked.0, picked.1), rw f (rw picked.2 refl))
      ]

roll_valued-Gives :
    (go : Runtime) (row : AffixConfig) (rows : List AffixConfig) (left rng : ℕ)
    → Weights (row ∷ rows)
    → Gives (roll_valued go (row ∷ rows) left rng)
unfolding roll_valued
roll_valued-Gives go row rows zero rng fits = (([], rng), refl)
roll_valued-Gives go row rows (suc left) rng fits =
    Gives-bind (weighted_affix go (row ∷ rows) rng) _ (weighted_affix-Gives go row rows rng fits)
      λ picked e.
        Gives-bind (roll_valued go (row ∷ rows) left (rolled_value go picked.0 picked.1).1) _
          (roll_valued-Gives go row rows left (rolled_value go picked.0 picked.1).1 fits)
          (λ rest e'. (_, refl))

-- The numbers of rolls of a pool are not negative, and smaller than the largest int64.
abbrev pub Rolls : AffixPool → Type 0
Rolls pool = (pos 0 ≤ℤ pool.rolls.min) × (pool.rolls.max <ℤ pos (2 ^ 63 - 1))

rolls_of-Gives :
    (go : Runtime) (pool : AffixPool) (rng : ℕ) → Rolls pool → Gives (rolls_of go pool rng)
rolls_of-Gives go pool rng h = decided pool.rolls.min pool.rolls.max h.0 h.1
  where
    decided :
        (min max : ℤ)
        → pos 0 ≤ℤ min
        → max <ℤ pos (2 ^ 63 - 1)
        → Gives {V = ℤ × ℕ} (
            if ltb_ℤ min max
            then (draw go (add64 (sub64 max min) (pos 1)) rng >>= λ drawn.
                returned (add64 min drawn.0, drawn.1))
            else returned (min, rng))
    decided min max nonneg fits = elim (Bool-cases (ltb_ℤ min max)) [
      | inl t ↦
          let less : min <ℤ max = ground arith in
          let d : sub64 max min ≡ max -ℤ min =
            sub64_nonneg max min nonneg (omega arith) (omega arith) in
          let n : add64 (max -ℤ min) (pos 1) ≡ (max -ℤ min) +ℤ pos 1 =
            add64_nonneg (max -ℤ min) (pos 1) (omega int_laws) (omega arith) (omega int_laws) in
          let drawn = draw_lem go ((max -ℤ min) +ℤ pos 1) rng (omega int_laws) in
          ((add64 min (pos drawn.0), drawn.1), rw t (rw (d, n, drawn.2) refl))
      | inr f ↦ ((min, rng), rw f refl)
    ]

-- The pools of affixes of a configuration are in order: weights are int64, and the numbers of rolls in
-- range.
abbrev pub Pools : Config → Type 0
Pools c =
    (id : String) (pool : AffixPool)
    → lookup id c.affix_pools ≡ some pool
    → Weights pool.affixes × Rolls pool

-- No rarity of a configuration has a negative number of affixes.
abbrev pub Rarities : Config → Type 0
Rarities c =
    (rarity : ℤ) (row : EquipmentRarity)
    → lookup rarity c.equipment.rarities ≡ some row
    → pos 0 ≤ℤ row.affix_count

pool_affixes-Gives :
    (go : Runtime) (pool : AffixPool) (rows : List AffixConfig) (rng : ℕ)
    → Weights rows
    → Rolls pool
    → Gives (pool_affixes go pool rows rng)
unfolding pool_affixes
pool_affixes-Gives go pool [] rng fits rolls = (([], rng), refl)
pool_affixes-Gives go pool (row ∷ rows) rng fits rolls =
    Gives-bind (rolls_of go pool rng) _ (rolls_of-Gives go pool rng rolls) λ n e. decided n
  where
    decided :
        (n : ℤ × ℕ)
        → Gives {V = List EquipmentAffix × ℕ} (
            if leb_ℤ n.0 (pos 0)
            then returned ([], n.1)
            else roll_valued go (row ∷ rows) (pos_part n.0) n.1)
    decided n = elim (Bool-cases (leb_ℤ (n.0) (pos 0))) [
      | inl t ↦ (([], n.1), rw t refl)
      | inr f ↦ rw f (roll_valued-Gives go row rows (pos_part n.0) n.1 fits)
    ]

roll_affixes-Gives :
    (go : Runtime) (c : Config) (pool_id : String) (rng : ℕ)
    → Pools c
    → Gives (roll_affixes go c pool_id rng)
unfolding roll_affixes
roll_affixes-Gives go c pool_id rng pools = found (lookup pool_id c.affix_pools) (pools pool_id)
  where
    found :
        (o : Option AffixPool)
        → ((pool : AffixPool) → o ≡ some pool → Weights pool.affixes × Rolls pool)
        → Gives (found_affixes go o rng)
    found none h = (([], rng), refl)
    found (some pool) h =
        pool_affixes-Gives go pool pool.affixes rng (h pool refl).0 (h pool refl).1

roll_configured-Gives :
    (go : Runtime) (row : Option EquipmentRarity) (pool : Option AffixPool) (rng : ℕ)
    → ((r : EquipmentRarity) → row ≡ some r → pos 0 ≤ℤ r.affix_count)
    → ((p : AffixPool) → pool ≡ some p → Weights p.affixes)
    → Gives (roll_configured go row pool rng)
roll_configured-Gives go none none rng h k = (([], rng), refl)
roll_configured-Gives go none (some pool) rng h k = (([], rng), refl)
roll_configured-Gives go (some row) none rng h k = (([], rng), refl)
roll_configured-Gives go (some row) (some pool) rng h k =
    let rolled =
      roll_eligible_lem go pool.affixes (pos_part row.affix_count) 0 [] rng (k pool refl)
        nothing_counted in
    ((rolled.0, rolled.1), nonneg_count go pool.affixes row.affix_count rng (h row refl) ∙ rolled.2)

pub roll_equipment_affixes-Gives :
    (go : Runtime) (c : Config) (item_id : String) (rarity : ℤ) (rng : ℕ)
    → Pools c
    → Rarities c
    → Gives (roll_equipment_affixes go c item_id rarity rng)
unfolding roll_equipment_affixes
roll_equipment_affixes-Gives go c item_id rarity rng pools rarities =
    found (equipment_template c item_id)
  where
    found : (o : Option EquipmentTemplate) → Gives (template_affixes go c o rarity rng)
    found none = (([], rng), refl)
    found (some template) =
        roll_configured-Gives go (equipment_rarity c rarity)
          (lookup template.affix_pool_id c.affix_pools) rng (λ r e. rarities rarity r e)
          (λ p e. (pools template.affix_pool_id p e).0)

-- `rollRewardAffixes` returns, whatever is drawn.
pub roll_reward_affixes-Gives :
    (go : Runtime) (c : Config) (item_id : String) (rarity : ℤ) (fallback : String) (rng : ℕ)
    → Pools c
    → Rarities c
    → Gives (roll_reward_affixes go c item_id rarity fallback rng)
unfolding roll_reward_affixes
roll_reward_affixes-Gives go c item_id rarity fallback rng pools rarities =
    elim (Option-cases (equipment_template c item_id)) [
      | inl gone ↦ rw (gone, roll_reward_affixes) (roll_affixes-Gives go c fallback rng pools)
      | inr (template, found) ↦
          rw (found, roll_reward_affixes)
            (roll_equipment_affixes-Gives go c item_id rarity rng pools rarities)
    ]
