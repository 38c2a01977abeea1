-- ===== src/Rules/Prizes.antt =====
-- What is drawn for a lottery order and for a bounty slot: LotteryPlan and BountyTaskPlan of
-- internal/economy/rules/config.go. The order in which `range` visits the templates is an argument.
pub mod Lotteries
use aeon_backend.Base.{
  ℕ, Bool, List, [], ◌∷◌, if◌then◌else◌, String, ◌==◌, ◌&&◌, ◌||◌, not, Option, none, some, zero,
  suc, ◌+◌, map, text_key, ◌-◌, true,
}
use aeon_backend.Base.Int.{ℤ, pos, pos_part, leb_ℤ, ltb_ℤ, int_key}
use aeon_backend.Base.Dict.{Dict, lookup}
use aeon_backend.Base.Rows.{select}
use aeon_backend.Base.Sorting.{text_lt}
use aeon_backend.Dungeon.Items.{DungeonRewardGrant, DungeonRewardPlan}
use aeon_backend.Rules.Outcome.{Outcome, panicked, failed, returned, check, ◌>>=◌}
use aeon_backend.Rules.Runtime.{Runtime}
use aeon_backend.Rules.Types.{Config, EquipmentTemplate, BountyTaskTemplate, BountyTaskPlan}
use aeon_backend.Rules.Draw.{draw, total_weight, pick_row, roll_quantity}
use aeon_backend.Rules.Draw.Weighted.{pick_weighted}
use aeon_backend.Rules.Draw.Keys.{weighted_key, all_count, or_else}
use aeon_backend.Rules.Affixes.{roll_equipment_affixes}
use aeon_backend.Rules.Names.{seed, equipment_uid}
use aeon_backend.Rules.Loot.Templates.{choose, is_empty}
use aeon_backend.Rules.Loot.Pools.{no_plan, with_items, item_grant}

abbrev pub affordable : ℤ → EquipmentTemplate → Bool
affordable level template = leb_ℤ template.stage level

-- A prize that is equipment.
abbrev pub lottery_equipment :
    Runtime
    → Config
    → List EquipmentTemplate
    → String
    → ℤ
    → ℕ
    → ℕ
    → Outcome (DungeonRewardGrant × ℕ)
lottery_equipment go c templates op_id level index rng =
    weighted_key ltb_ℤ go (pos 0) c.lottery.equipment_rarity_weight rng >>= λ rarity.
    check (not (is_empty (select (affordable level) templates)))
      "no lottery equipment is available at character level"
      (choose go (select (affordable level) templates) rarity.1 >>= λ chosen.
        roll_equipment_affixes go c chosen.0.item_id rarity.0 chosen.1 >>= λ affixes. returned (
          record {
            reward_type = "equipment";
            item_id = chosen.0.item_id;
            quantity = pos 1;
            equipment_uid =
                equipment_uid c.rules.equipment_uid_prefix op_id "lottery" (pos index) (pos 0);
            rarity = rarity.0;
            category = chosen.0.category;
            affix_pool_id = "";
            affixes = affixes.0;
          },
          affixes.1,
        ))

-- A prize that is one of some items.
abbrev pub lottery_item : Runtime → Config → List String → ℕ → Outcome (DungeonRewardGrant × ℕ)
lottery_item go c ids rng =
    choose go ids rng >>= λ chosen. returned (item_grant c chosen.0 (pos 1) (pos 0), chosen.1)

abbrev pub lottery_mount : Runtime → Config → String → ℕ → ℕ → Outcome (DungeonRewardGrant × ℕ)
lottery_mount go c op_id index rng = choose go c.lottery.mount_item_ids rng >>= λ chosen. returned (
  record {
    reward_type = "equipment";
    item_id = chosen.0;
    quantity = pos 1;
    equipment_uid =
        equipment_uid c.rules.equipment_uid_prefix op_id "lottery-mount" (pos index) (pos 0);
    rarity = pos 5;
    category = "mount";
    affix_pool_id = "";
    affixes = [];
  },
  chosen.1,
)

-- The switch on the category that is drawn.
unfoldable pub lottery_prize :
    Runtime
    → Config
    → List EquipmentTemplate
    → String
    → ℤ
    → ℕ
    → String
    → ℕ
    → Outcome (DungeonRewardGrant × ℕ)
unfolding weighted_key choose roll_equipment_affixes equipment_uid select
lottery_prize go c templates op_id level index category rng =
    if category == "equipment"
    then lottery_equipment go c templates op_id level index rng
    else if category == "rare_material"
    then lottery_item go c c.lottery.rare_material_item_ids rng
    else if category == "boss_ticket"
    then lottery_item go c c.lottery.boss_ticket_item_ids rng
    else if category == "mount"
    then lottery_mount go c op_id index rng
    else failed "unsupported lottery category"

-- The loop over the draws, on the number left.
unfoldable pub lottery_draws :
    Runtime
    → Config
    → List EquipmentTemplate
    → String
    → ℤ
    → ℕ
    → ℕ
    → ℕ
    → Outcome (List DungeonRewardGrant)
unfolding lottery_prize weighted_key
lottery_draws go c templates op_id level zero index rng = returned []
lottery_draws go c templates op_id level (suc left) index rng =
    weighted_key text_lt go "" c.lottery.category_weight rng >>= λ category.
    lottery_prize go c templates op_id level index category.0 category.1 >>= λ prize.
    lottery_draws go c templates op_id level left (index + 1) prize.1 >>= λ rest.
    returned (prize.0 ∷ rest)

-- `LotteryPlan`
unfoldable pub lottery_plan :
    Runtime
    → Config
    → (List EquipmentTemplate → List EquipmentTemplate)
    → String
    → ℤ
    → ℤ
    → ℤ
    → Outcome DungeonRewardPlan
unfolding lottery_draws seed
lottery_plan go c visit op_id character_id level count =
    check (not (ltb_ℤ count (pos 1) || ltb_ℤ c.lottery.max_count count))
      "lottery count must be 1 to the maximum"
      (lottery_draws go c (visit (map (λ row. row.1) c.equipment.by_item_id)) op_id level
          (pos_part count) 0
          (go.pcg (seed op_id "lottery" character_id level count) 0x9e3779b97f4a7c15)
        >>= λ grants. returned (with_items no_plan grants))

-- The test of the loop over the task templates.
abbrev pub is_eligible_task : Bool → BountyTaskTemplate → Bool
is_eligible_task premium task =
    if premium then task.difficulty == "rare" else task.difficulty == "normal"

abbrev pub task_weight : BountyTaskTemplate → ℤ
task_weight task = task.weight

-- The last of some tasks, of which there is one.
abbrev pub last_task : BountyTaskTemplate → List BountyTaskTemplate → BountyTaskTemplate
last_task task [] = task
last_task task (next ∷ tasks) = last_task next tasks

abbrev pub task_plan : BountyTaskTemplate → ℤ → BountyTaskPlan
task_plan task required = record {
  template_id = task.template_id;
  type = task.type;
  difficulty = task.difficulty;
  item_id = task.item_id;
  min_rarity = task.min_rarity;
  required = required;
  reward_item_id = task.reward_item_id;
  reward_quantity = task.reward_quantity;
}

-- The task that is drawn from those that are eligible.
abbrev pub drawn_task : Runtime → List BountyTaskTemplate → ℕ → Outcome BountyTaskPlan
drawn_task go [] rng = failed "no bounty template is available"
drawn_task go (task ∷ tasks) rng =
    pick_weighted all_count task_weight go (task ∷ tasks) rng >>= λ picked.
    let selected = or_else (last_task task tasks) picked.0 in
    roll_quantity go selected.quantity_min selected.quantity_max picked.1 >>= λ required.
    returned (task_plan selected required.0)

-- `BountyTaskPlan`
unfoldable pub bounty_task_plan : Runtime → Config → String → ℤ → ℤ → Bool → Outcome BountyTaskPlan
unfolding draw total_weight pick_row roll_quantity seed select
bounty_task_plan go c op_id character_id slot_index premium =
    check (not (ltb_ℤ slot_index (pos 1) || ltb_ℤ (pos 5) slot_index)) "bounty slot must be 1..5" (
      drawn_task go (select (is_eligible_task premium) c.bounties.task_templates)
        (go.pcg (seed op_id "bounty" character_id slot_index (pos 0)) 0x517cc1b727220a95))
