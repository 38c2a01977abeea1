-- ===== src/Dungeon/Finish.antt =====
-- `DungeonFinish`.
use aeon_backend.Dungeon.Items.{
  DungeonResult, DungeonRewardPlan, EconomySnapshot, economy_snapshot, split_rewards,
}
use aeon_backend.Base.{
  Bool, Error, Result, String, [], err, false, if◌then◌else◌, none, not, ok, some, ℕ, ◌&&◌, ◌==◌,
  ◌||◌, nat_key, text_key,
}
use aeon_backend.Players.Characters.{own_character}
use aeon_backend.Base.Int.{add64, leb_ℤ, ltb_ℤ, pos, ℤ}
use aeon_backend.Base.Text.{format_int, trim_space}
use aeon_backend.Store.{Character, DungeonRunRecovery, Store}
use aeon_backend.Players.Levels.{LevelProgress, LevelProgressionRules, progress}
use aeon_backend.Base.Dict.{insert, lookup}

pub record DungeonFinishRequest : Type 0 where
  pub account_id : ℕ
  pub character_id : ℕ
  pub dungeon_run_id : String
  pub server_id : String
  pub chapter_id : ℤ
  pub floor_id : ℤ
  pub result : String
  pub exp : ℤ
  pub reward_plan : DungeonRewardPlan
  pub level_progression : LevelProgressionRules

-- The run that the request may finish.
abbrev pub may_finish : DungeonFinishRequest → DungeonRunRecovery → Bool
may_finish req run =
    run.required
    && (run.account_id == req.account_id)
    && (run.dungeon_run_id == trim_space req.dungeon_run_id)

abbrev pub wrong_server : DungeonFinishRequest → DungeonRunRecovery → Bool
wrong_server req run = not (run.server_id == "") && not (trim_space req.server_id == run.server_id)

abbrev pub new_exp : DungeonFinishRequest → Character → ℤ
new_exp req row = if ltb_ℤ (pos 0) req.exp then add64 row.exp req.exp else row.exp

abbrev pub goes_further : DungeonFinishRequest → Character → Bool
goes_further req row =
    ltb_ℤ row.highest_cleared_chapter_id req.chapter_id
    || ((leb_ℤ row.highest_cleared_chapter_id req.chapter_id
          && leb_ℤ req.chapter_id row.highest_cleared_chapter_id)
        && ltb_ℤ row.highest_cleared_floor_id req.floor_id)

abbrev pub gain : DungeonFinishRequest → Character → LevelProgress
gain req row = progress req.level_progression row.level (new_exp req row)

abbrev pub advanced : DungeonFinishRequest → Character → Character
advanced req row = record row { exp = new_exp req row; level = pos ((gain req row).level) }

abbrev pub cleared : Bool → DungeonFinishRequest → Character → Character
cleared victory req row =
    if victory && goes_further req row
    then record row {
      highest_cleared_chapter_id = req.chapter_id;
      highest_cleared_floor_id = req.floor_id;
    }
    else row

abbrev pub finished_run : Bool → DungeonRunRecovery → DungeonRunRecovery
finished_run victory run = record run {
  required = false;
  status = if victory then "FINISHED" else "FAILED";
}

abbrev pub finished_result :
    String → Bool → DungeonFinishRequest → ℕ → EconomySnapshot → DungeonResult
finished_result result victory req gained snapshot =
    let (items, equipment) = split_rewards 0 req.reward_plan.items in
    record {
      dungeon_run_id = trim_space req.dungeon_run_id;
      chapter_id = req.chapter_id;
      floor_id = req.floor_id;
      is_boss = req.reward_plan.is_boss;
      status = if victory then "REWARDED" else "FAILED";
      result = result;
      cost = record { gold = pos 0; items = [] };
      rewards = record {
        exp = req.exp;
        levels_gained = gained;
        level = snapshot.level;
        exp_to_next_level = pos 0;
        token_reward = format_int req.reward_plan.token_reward;
        items = items;
        equipment_items = equipment;
      };
      discarded_rewards = [];
      snapshot = snapshot;
    }

module _ (to_lower : String → String) where
  abbrev pub outcome : DungeonFinishRequest → String
  outcome req = to_lower (trim_space req.result)

  -- The part that holds the mutex: the run ends and the character advances.
  unfoldable pub end_run : DungeonFinishRequest → Store → Result ℕ × Store
  end_run req s = elim (lookup req.character_id s.dungeon_recoveries) [
    | none ↦ (err Error.forbidden, s)
    | some run ↦
        if not (may_finish req run)
        then (err Error.forbidden, s)
        else if wrong_server req run
        then (err Error.forbidden, s)
        else (elim (own_character req.account_id req.character_id s) [
          | none ↦ (err Error.not_found, s)
          | some row ↦
              let victory = outcome req == "victory" in
              (
                ok ((gain req row).levels_gained),
                record s {
                  dungeon_recoveries =
                      insert req.character_id (finished_run victory run) s.dungeon_recoveries;
                  characters =
                      insert req.character_id (cleared victory req (advanced req row)) s.characters;
                },
              )
        ])
  ]

  -- `DungeonFinish`
  unfoldable pub dungeon_finish : DungeonFinishRequest → Store → Result DungeonResult × Store
  unfolding end_run economy_snapshot
  dungeon_finish req s =
      let (ended, s₁) = end_run req s in
      elim ended [
        | err e ↦ (err e, s₁)
        | ok gained ↦
            let (snapshot, s₂) = economy_snapshot req.account_id req.character_id s₁ in
            elim snapshot [
              | err e ↦ (err e, s₂)
              | ok shown ↦ (
                ok (finished_result (outcome req) (outcome req == "victory") req gained shown),
                s₂,
              )
            ]
      ]
