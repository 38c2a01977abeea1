-- ===== src/Rules/Settlements/Recipes.antt =====
-- RecipePlan of internal/economy/rules/config.go: what a number of batches takes and gives.
use Prim.Native.String.{◌++◌ as text_append}
use aeon_backend.Base.{ℕ, List, [], ◌∷◌, if◌then◌else◌, String, ◌==◌, not, zero, suc, ◌+◌, text_key}
use aeon_backend.Base.Int.{ℤ, pos, pos_part, leb_ℤ, mul64}
use aeon_backend.Base.Dict.{lookup}
use aeon_backend.Base.Text.{trim_space}
use aeon_backend.Dungeon.Items.{DungeonRewardGrant, DungeonRewardPlan}
use aeon_backend.Rules.Outcome.{Outcome, failed, returned, check, found_or, ◌>>=◌}
use aeon_backend.Rules.Runtime.{Runtime}
use aeon_backend.Rules.Types.{Config, RecipeMaterial}
use aeon_backend.Rules.Affixes.{roll_reward_affixes}
use aeon_backend.Rules.Names.{seed, equipment_uid}
use aeon_backend.Rules.Loot.Pools.{no_plan, item_grant, with_items, item_rarity, item_category}

-- The materials of a recipe for a number of batches.
unfoldable pub recipe_inputs : ℤ → List RecipeMaterial → List RecipeMaterial
recipe_inputs batches [] = []
recipe_inputs batches (input ∷ inputs) =
    record { item_id = input.item_id; quantity = mul64 input.quantity batches }
    ∷ recipe_inputs batches inputs

-- The loop over the pieces of an output, on the number left.
unfoldable pub recipe_pieces :
    Runtime
    → Config
    → String
    → String
    → ℕ
    → DungeonRewardGrant
    → ℕ
    → ℕ
    → ℕ
    → Outcome (List DungeonRewardGrant × ℕ)
unfolding roll_reward_affixes item_rarity item_category equipment_uid
recipe_pieces go c op_id ref_id index output zero i rng = returned ([], rng)
recipe_pieces go c op_id ref_id index output (suc left) i rng =
    roll_reward_affixes go c output.item_id output.rarity output.affix_pool_id rng >>= λ affixes.
    recipe_pieces go c op_id ref_id index output left (i + 1) affixes.1 >>= λ rest. returned (
      record {
        reward_type = "equipment";
        item_id = output.item_id;
        quantity = pos 1;
        equipment_uid = equipment_uid c.rules.equipment_uid_prefix op_id ref_id (pos index) (pos i);
        rarity = item_rarity c.items output.item_id output.rarity;
        category = item_category c.items output.item_id;
        affix_pool_id = "";
        affixes = affixes.0;
      }
          ∷ rest.0,
      rest.1,
    )

-- One output of a recipe.
abbrev pub add_output :
    Runtime
    → Config
    → String
    → String
    → ℤ
    → ℕ
    → DungeonRewardGrant
    → DungeonRewardPlan
    → ℕ
    → Outcome (DungeonRewardPlan × ℕ)
add_output go c op_id ref_id total index output plan rng =
    let kind = go.lower (trim_space output.reward_type) in
    if leb_ℤ total (pos 0)
    then returned (plan, rng)
    else if kind == "item"
    then returned (with_items plan (item_grant c output.item_id total output.rarity ∷ []), rng)
    else if kind == "equipment"
    then (recipe_pieces go c op_id ref_id index output (pos_part total) 0 rng >>= λ grants.
        returned (with_items plan grants.0, grants.1))
    else failed "recipe has unsupported output type"

unfoldable pub recipe_outputs :
    Runtime
    → Config
    → String
    → String
    → ℤ
    → ℕ
    → List DungeonRewardGrant
    → DungeonRewardPlan
    → ℕ
    → Outcome DungeonRewardPlan
unfolding recipe_pieces item_rarity item_category
recipe_outputs go c op_id ref_id batches index [] plan rng = returned plan
recipe_outputs go c op_id ref_id batches index (output ∷ outputs) plan rng =
    add_output go c op_id ref_id (mul64 output.quantity batches) index output plan rng >>= λ next.
    recipe_outputs go c op_id ref_id batches (index + 1) outputs next.0 next.1

abbrev pub recipe_batches : ℤ → ℤ
recipe_batches batch_count = if leb_ℤ batch_count (pos 0) then pos 1 else batch_count

-- `RecipePlan`
unfoldable pub recipe_plan :
    Runtime → Config → String → String → ℤ → ℤ → Outcome (DungeonRewardPlan × List RecipeMaterial)
unfolding recipe_outputs recipe_inputs seed
recipe_plan go c recipe_id op_id character_id batch_count =
    let id = trim_space recipe_id in
    let batches = recipe_batches batch_count in
    check (not (id == "")) "recipeId is required" (
      found_or (lookup id c.recipes) "recipe is not configured" >>= λ recipe.
      recipe_outputs go c op_id (text_append "recipe:" id) batches 0 recipe.outputs no_plan
        (go.pcg (seed op_id id character_id batches (pos 0)) 0x9e3779b97f4a7c15)
      >>= λ plan. returned (plan, recipe_inputs batches recipe.inputs))
