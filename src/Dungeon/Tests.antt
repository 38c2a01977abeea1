-- ===== src/Dungeon/Tests.antt =====
-- Character 1002 of account 1001 enters a dungeon, is refused a second entry, and wins.
use aeon_backend.Players.Accounts.{upsert_account_by_wallet}
use aeon_backend.Players.Characters.{create_character, new_character, own_character}
use aeon_backend.Store.{Store, new, row_of, zero_token}
use aeon_backend.Base.Int.{pos}
use aeon_backend.Dungeon.Rewards.{dungeon_finish-once}
use aeon_backend.Base.{
  ne_of_==-false, Error, Option, Result, String, [], err, false, none, ok, refl, some, ◌≡◌, ◌≢◌,
  nat_key,
}
use aeon_backend.Dungeon.Runs.{DungeonEnterRequest, dungeon_enter, entered_result}
use aeon_backend.Dungeon.Items.{DungeonResult, EconomySnapshot, snapshot_of}
use aeon_backend.Dungeon.Later.{cancels, enters, here, run_next, run_step}
use aeon_backend.Dungeon.Once.{dungeon_enter-exclusive}
use aeon_backend.Dungeon.Finish.{DungeonFinishRequest, dungeon_finish}
use aeon_backend.Players.Levels.{progress}
use aeon_backend.Base.Text.{trim_space}

abbrev with_hero : Store
with_hero = (create_character 1001 "hero" none 6 (upsert_account_by_wallet "w" 5 new).1).1

abbrev enter_request : DungeonEnterRequest
enter_request = record {
  op_id = "op1";
  account_id = 1001;
  character_id = 1002;
  server_id = "srv";
  chapter_id = pos 1;
  floor_id = pos 2;
  is_boss = false;
  cost = record { gold = pos 0; items = [] };
}

abbrev in_run : Store
in_run = (dungeon_enter enter_request 10 with_hero).1

abbrev shown : EconomySnapshot
shown = snapshot_of 1001 1002 (new_character 1002 1001 "hero" 0 none 6) (zero_token 1001)

entry : (dungeon_enter enter_request 10 with_hero).0 ≡ ok (entered_result enter_request shown)
unfolding dungeon_enter create_character upsert_account_by_wallet own_character row_of new
entry = refl

abbrev same_text : String → String
same_text t = t

-- A second entry of the character, and a cancellation for another one.
abbrev retried : Store
retried =
    run_step same_text (cancels 1001 1003 "memory-op2")
      (run_step same_text (enters enter_request 15) in_run)

dungeon_enter-exclusive_example :
    (dungeon_enter enter_request 20 retried).0 ≢ ok (entered_result enter_request shown)
dungeon_enter-exclusive_example =
    dungeon_enter-exclusive same_text enter_request enter_request 10 20
      (entered_result enter_request shown) (entered_result enter_request shown) with_hero retried
      refl entry
      (run_next (run_next here (enters enter_request 15) tt) (cancels 1001 1003 "memory-op2")
        (ne_of_==-false 1003 1002 refl))

abbrev finish_request : DungeonFinishRequest
finish_request = record {
  account_id = 1001;
  character_id = 1002;
  dungeon_run_id = "memory-op1";
  server_id = "srv";
  chapter_id = pos 1;
  floor_id = pos 2;
  result = "victory";
  exp = pos 150;
  reward_plan = record { is_boss = false; items = []; token_reward = pos 0 };
  level_progression = record {
    max_level = pos 5;
    base = pos 100;
    linear = pos 0;
    quadratic = pos 0;
  };
}

abbrev result_of : Result DungeonResult → Option String
result_of (err e) = none
result_of (ok r) = some r.status

rewarded : result_of (dungeon_finish same_text finish_request in_run).0 ≡ some "REWARDED"
unfolding dungeon_finish dungeon_enter create_character upsert_account_by_wallet own_character new
    progress trim_space
rewarded = refl

abbrev or_nothing : Result DungeonResult → DungeonResult
or_nothing (err e) = entered_result enter_request shown
or_nothing (ok r) = r

finished :
    (dungeon_finish same_text finish_request in_run).0
    ≡ ok (or_nothing (dungeon_finish same_text finish_request in_run).0)
unfolding dungeon_finish dungeon_enter create_character upsert_account_by_wallet own_character new
    progress trim_space
finished = refl

-- The run that is over is cancelled in vain.
abbrev past_finish : Store
past_finish =
    run_step same_text (cancels 1001 1002 "memory-op1")
      (dungeon_finish same_text finish_request in_run).1

dungeon_finish-once_example :
    dungeon_finish same_text finish_request past_finish ≡ (err Error.forbidden, past_finish)
dungeon_finish-once_example =
    dungeon_finish-once same_text finish_request finish_request
      (or_nothing (dungeon_finish same_text finish_request in_run).0) in_run past_finish refl
      finished (run_next here (cancels 1001 1002 "memory-op1") tt)
