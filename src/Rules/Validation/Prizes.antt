-- ===== src/Rules/Validation/Prizes.antt =====
-- The checks of the lottery and of bounties in `validate` of internal/economy/rules/config.go.
use aeon_backend.Base.{
  ℕ, List, [], ◌∷◌, ◌++◌, ◌+◌, String, ◌==◌, ◌&&◌, ◌||◌, not, text_key, length, nat_key,
}
use aeon_backend.Base.Int.{ℤ, pos, leb_ℤ, ltb_ℤ}
use aeon_backend.Base.Dict.{Dict}
use aeon_backend.Base.Text.{trim_space, format_int}
use aeon_backend.Rules.Outcome.{Outcome, check, ◌>>=◌}
use aeon_backend.Rules.Types.{Config, BountyTaskTemplate, BountyBadgeReward, BountyBadgeLottery}
use aeon_backend.Rules.Draw.Keys.{validate_weights}
use aeon_backend.Rules.Loot.Templates.{is_empty}
use aeon_backend.Rules.Validation.Loops.{each, has, require}

abbrev pub lottery_items : Config → List String
lottery_items c =
    c.lottery.rare_material_item_ids ++ (c.lottery.boss_ticket_item_ids ++ c.lottery.mount_item_ids)

-- The checks of the lottery.
unfoldable pub validate_lottery : Config → Outcome (Unit {0})
unfolding each validate_weights
validate_lottery c =
    check
      (not (
        leb_ℤ c.lottery.price_aeb (pos 0)
        || ltb_ℤ c.lottery.max_count (pos 1)
        || is_empty c.lottery.category_weight
        || is_empty c.lottery.equipment_rarity_weight))
      "lottery.json is incomplete"
      (validate_weights c.lottery.category_weight >>= λ categories.
        validate_weights c.lottery.equipment_rarity_weight >>= λ rarities.
        each (λ id. require (has id c.items) "lottery.json references unknown item")
          (lottery_items c))

abbrev pub validate_task : Config → BountyTaskTemplate → Outcome (Unit {0})
validate_task c task =
    check
      (not (
        (trim_space task.template_id == "")
        || leb_ℤ task.quantity_min (pos 0)
        || ltb_ℤ task.quantity_max task.quantity_min
        || leb_ℤ task.weight (pos 0)))
      "bounties.json contains an invalid task template"
      (check ((task.item_id == "") || has task.item_id c.items)
        "bounty task references unknown item"
        (require (has task.reward_item_id c.items) "bounty task references unknown reward"))

abbrev pub validate_reward : Config → BountyBadgeReward → Outcome (Unit {0})
validate_reward c reward =
    check
      (not (leb_ℤ reward.weight (pos 0) || ltb_ℤ reward.min (pos 0) || ltb_ℤ reward.max reward.min))
      "bounty badge lottery has invalid reward"
      (require (not (reward.type == "item") || has reward.item_id c.items)
        "bounty badge lottery references unknown reward")

-- The weights of the rewards, each under its index.
abbrev pub reward_weights : ℕ → List BountyBadgeReward → Dict String ℤ
reward_weights index [] = []
reward_weights index (reward ∷ rewards) =
    (format_int (pos index), reward.weight) ∷ reward_weights (index + 1) rewards

abbrev pub validate_badge : Config → BountyBadgeLottery → Outcome (Unit {0})
validate_badge c lottery =
    check (has lottery.cost_item_id c.items) "bounty badge lottery references unknown cost item" (
      each (validate_reward c) lottery.rewards >>= λ done.
      validate_weights (reward_weights 0 lottery.rewards))

-- The checks of the bounties.
unfoldable pub validate_bounties : Config → Outcome (Unit {0})
unfolding each validate_weights
validate_bounties c =
    check
      ((length c.bounties.slots == 5)
        && not (leb_ℤ c.bounties.refresh.free_cooldown_seconds (pos 0)))
      "bounties.json is incomplete"
      (each (validate_task c) c.bounties.task_templates >>= λ tasks.
        each (λ row. validate_badge c row.1) c.bounties.badge_lottery)
