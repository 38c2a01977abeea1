-- ===== src/Rules/Affixes/Semantic.antt =====
-- The affixes of new equipment: `rollEquipmentAffixes` and its comment that a key occurs at most twice,
-- of internal/economy/rules/config.go.
use aeon_backend.Base.{
  ℕ, Bool, if◌then◌else◌, some, List, [], ◌∷◌, zero, suc, ◌+◌, ◌≤◌, ◌&&◌, String, text_key, ◌==◌,
  Bool-cases, Option-cases, inl, inr, true, All, length, ◌≡◌, refl, ap, sym, ◌∙◌, arith, map, subst,
}
use aeon_backend.Base.Int.{
  ℤ, pos, negsuc, pos_part, ltb_ℤ, add64, int_key, ◌≤ℤ◌, ◌<ℤ◌, ◌+ℤ◌, int_laws, add64_nonneg,
}
use aeon_backend.Base.Dict.{Dict, lookup, lookup-insert}
use aeon_backend.Dungeon.Items.{EquipmentAffix}
use aeon_backend.Rules.Outcome.{panicked, returned}
use aeon_backend.Rules.Runtime.{Runtime}
use aeon_backend.Rules.Types.{Config, EquipmentTemplate, EquipmentRarity, AffixConfig, AffixPool}
use aeon_backend.Rules.Draw.Keys.{or_else, weight_of}
use aeon_backend.Rules.Affixes.{
  semantic_affix, instance_name, counted, roll_eligible, roll_configured, roll_equipment_affixes,
  equipment_template, equipment_rarity,
}
use aeon_backend.Rules.Affixes.Eligible.{Among, Weights, Picked, weighted_eligible_affix_lem}

-- How often an affix stands in a list.
abbrev pub occurs : String → List EquipmentAffix → ℕ
occurs id [] = 0
occurs id (affix ∷ affixes) =
    if affix.affix_id == id then suc (occurs id affixes) else occurs id affixes

-- The names `a1`, `a2`, and so on, from an index.
abbrev pub numbered : ℕ → ℕ → List String
numbered i zero = []
numbered i (suc n) = instance_name i ∷ numbered (i + 1) n

-- No count is beyond two, nor below zero.
abbrev pub Bounded : Dict String ℤ → Type 0
Bounded counts = (id : String) → (pos 0 ≤ℤ weight_of counts id) × (weight_of counts id ≤ℤ pos 2)

-- Each affix names a row of the pool that has a positive weight.
abbrev pub FromPool : List AffixConfig → EquipmentAffix → Type 0
FromPool rows affix =
    (row : AffixConfig) × Among row rows × (pos 0 <ℤ row.weight) × (affix.affix_id ≡ row.affix_id)

counted_lem :
    (counts : Dict String ℤ) (affix : AffixConfig) (id : String)
    → Bounded counts
    → weight_of (counted affix counts) id
      ≡ (if affix.affix_id == id then weight_of counts id +ℤ pos 1 else weight_of counts id)
counted_lem counts affix id bounded =
    ap (or_else (pos 0))
      (lookup-insert id affix.affix_id (add64 (weight_of counts affix.affix_id) (pos 1)) counts)
    ∙ elim (Bool-cases (affix.affix_id == id)) [
      | inl t ↦
          let same : affix.affix_id ≡ id = (text_key.agrees affix.affix_id id).0 t in
          let b = bounded affix.affix_id in
          rw t (
            add64_nonneg (weight_of counts affix.affix_id) (pos 1) b.0 (omega arith)
              (omega (int_laws, b.1))
            ∙ ap (λ k. weight_of counts k +ℤ pos 1) same)
      | inr f ↦ rw f refl
    ]

counted-Bounded :
    (counts : Dict String ℤ) (affix : AffixConfig)
    → Bounded counts
    → weight_of counts affix.affix_id <ℤ pos 2
    → Bounded (counted affix counts)
counted-Bounded counts affix bounded less id =
    subst (λ w. (pos 0 ≤ℤ w) × (w ≤ℤ pos 2)) (sym (counted_lem counts affix id bounded))
      (elim (Bool-cases (affix.affix_id == id)) [
        | inl t ↦
            let same : affix.affix_id ≡ id = (text_key.agrees affix.affix_id id).0 t in
            let less' = subst (λ k. weight_of counts k <ℤ pos 2) same less in
            rw t (omega (int_laws, (bounded id).0), omega (int_laws, less'))
        | inr f ↦ rw f (bounded id)
      ])

occurs_once_more : (w : ℤ) (n : ℕ) → (w +ℤ pos 1) +ℤ pos n ≤ℤ pos 2 → w +ℤ pos (suc n) ≤ℤ pos 2
occurs_once_more w n h = omega (int_laws, h)

below_two : (b : Bool) (w : ℤ) → (b && ltb_ℤ w (pos 2)) ≡ true → w <ℤ pos 2
below_two b w t = ground arith

-- What the loop returns, from an index and the counts so far.
abbrev pub Rolled : List AffixConfig → ℕ → ℕ → Dict String ℤ → List EquipmentAffix → Type 0
Rolled rows left i counts affixes =
    (length affixes ≤ left)
    × ((id : String) → weight_of counts id +ℤ pos (occurs id affixes) ≤ℤ pos 2)
    × All (FromPool rows) affixes
    × (map (λ (a : EquipmentAffix). a.instance_id) affixes ≡ numbered i (length affixes))

Rolled-cons :
    (rows : List AffixConfig) (left i : ℕ) (counts : Dict String ℤ) (affix : AffixConfig)
    (affixes : List EquipmentAffix)
    → Bounded counts
    → Picked counts rows (some affix)
    → Rolled rows left (i + 1) (counted affix counts) affixes
    → Rolled rows (suc left) i counts (semantic_affix i affix ∷ affixes)
Rolled-cons rows left i counts affix affixes bounded picked r = (
  omega (arith, r.0),
  λ id. shifted id (counted_lem counts affix id bounded) (r.1 id),
  (
    (
      affix,
      picked.1,
      positive affix.weight (ltb_ℤ (weight_of counts affix.affix_id) (pos 2)) picked.0,
      refl,
    ),
    r.2,
  ),
  ap (λ names. instance_name i ∷ names) r.3,
)
  where
    positive : (w : ℤ) (b : Bool) → (ltb_ℤ (pos 0) w && b) ≡ true → pos 0 <ℤ w
    positive w b t = ground arith

    shifted :
        (id : String)
        → weight_of (counted affix counts) id
          ≡ (if affix.affix_id == id then weight_of counts id +ℤ pos 1 else weight_of counts id)
        → weight_of (counted affix counts) id +ℤ pos (occurs id affixes) ≤ℤ pos 2
        → weight_of counts id +ℤ pos (occurs id (semantic_affix i affix ∷ affixes)) ≤ℤ pos 2
    shifted id e h = elim (Bool-cases (affix.affix_id == id)) [
      | inl t ↦ rw t (
          occurs_once_more (weight_of counts id) (occurs id affixes)
            (subst (λ w. w +ℤ pos (occurs id affixes) ≤ℤ pos 2) (e ∙ rw t refl) h))
      | inr f ↦ rw f (subst (λ w. w +ℤ pos (occurs id affixes) ≤ℤ pos 2) (e ∙ rw f refl) h)
    ]

pub roll_eligible_lem :
    (go : Runtime) (rows : List AffixConfig) (left i : ℕ) (counts : Dict String ℤ) (rng : ℕ)
    → Weights rows
    → Bounded counts
    → (affixes : List EquipmentAffix) × (rng' : ℕ) × (roll_eligible go rows left i counts rng
        ≡ returned (affixes, rng'))
      × Rolled rows left i counts affixes
unfolding roll_eligible
roll_eligible_lem go rows zero i counts rng fits bounded =
    ([], rng, refl, (omega arith, λ id. omega (int_laws, (bounded id).1), tt, refl))
roll_eligible_lem go rows (suc left) i counts rng fits bounded =
    let picked = weighted_eligible_affix_lem go rows counts rng fits in
    elim (Option-cases (picked.0)) [
      | inl nothing ↦ (
        [],
        picked.1,
        rw picked.2 (rw nothing refl),
        (omega arith, λ id. omega (int_laws, (bounded id).1), tt, refl),
      )
      | inr (affix, found) ↦
          let p : Picked counts rows (some affix) = subst (Picked counts rows) found picked.3 in
          let rest = roll_eligible_lem go rows left (i + 1) (counted affix counts) picked.1 fits (
            counted-Bounded counts affix bounded
              (below_two (ltb_ℤ (pos 0) affix.weight) (weight_of counts affix.affix_id) p.0)) in
          (
            semantic_affix i affix ∷ rest.0,
            rest.1,
            rw picked.2 (rw found (rw rest.2 refl)),
            Rolled-cons rows left i counts affix rest.0 bounded p rest.3,
          )
    ]

all_configured :
    (go : Runtime) (c : Config) (item_id : String) (rarity : ℤ) (rng : ℕ)
    (template : EquipmentTemplate) (row : EquipmentRarity) (pool : AffixPool)
    → equipment_template c item_id ≡ some template
    → equipment_rarity c rarity ≡ some row
    → lookup template.affix_pool_id c.affix_pools ≡ some pool
    → roll_equipment_affixes go c item_id rarity rng ≡ roll_configured go (some row) (some pool) rng
unfolding roll_equipment_affixes
all_configured go c item_id rarity rng template row pool e₁ e₂ e₃ = rw e₁ (rw (e₂, e₃) refl)

within : (n : ℕ) (c : ℤ) → n ≤ pos_part c → pos 0 ≤ℤ c → pos n ≤ℤ c
within n (pos m) h k = omega arith
within n (negsuc m) h k = absurd (omega arith)

pub nothing_counted : Bounded []
nothing_counted id = omega arith

pub nonneg_count :
    (go : Runtime) (rows : List AffixConfig) (n : ℤ) (rng : ℕ)
    → pos 0 ≤ℤ n
    → (if ltb_ℤ n (pos 0) then panicked else roll_eligible go rows (pos_part n) 0 [] rng)
      ≡ roll_eligible go rows (pos_part n) 0 [] rng
nonneg_count go rows n rng h = ground arith

-- `rollEquipmentAffixes` for a template, a rarity and a pool that are configured, where the number of
-- affixes of the rarity is not negative: whatever the generator draws, it returns at most that many
-- affixes, no key more than twice, each the key of a row of the pool with a positive weight, and the
-- instances are named a1, a2 and so on in order.
pub roll_equipment_affixes_lem :
    (go : Runtime) (c : Config) (item_id : String) (rarity : ℤ) (rng : ℕ)
    (template : EquipmentTemplate) (row : EquipmentRarity) (pool : AffixPool)
    → equipment_template c item_id ≡ some template
    → equipment_rarity c rarity ≡ some row
    → lookup template.affix_pool_id c.affix_pools ≡ some pool
    → pos 0 ≤ℤ row.affix_count
    → Weights pool.affixes
    → (affixes : List EquipmentAffix) × (rng' : ℕ) × (roll_equipment_affixes go c item_id rarity rng
        ≡ returned (affixes, rng'))
      × (pos (length affixes) ≤ℤ row.affix_count)
      × ((id : String) → occurs id affixes ≤ 2)
      × All (FromPool pool.affixes) affixes
      × (map (λ (a : EquipmentAffix). a.instance_id) affixes ≡ numbered 0 (length affixes))
roll_equipment_affixes_lem go c item_id rarity rng template row pool e₁ e₂ e₃ some_affixes fits =
    let rolled =
      roll_eligible_lem go pool.affixes (pos_part row.affix_count) 0 [] rng fits nothing_counted in
    (
      rolled.0,
      rolled.1,
      all_configured go c item_id rarity rng template row pool e₁ e₂ e₃
          ∙ nonneg_count go pool.affixes row.affix_count rng some_affixes
          ∙ rolled.2,
      within (length rolled.0) row.affix_count (rolled.3).0 some_affixes,
      λ id. from_none (occurs id rolled.0) ((rolled.3).1 id),
      (rolled.3).2,
      (rolled.3).3,
    )
  where
    from_none : (n : ℕ) → pos 0 +ℤ pos n ≤ℤ pos 2 → n ≤ 2
    from_none n h = omega (int_laws, h)
