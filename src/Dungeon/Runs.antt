-- ===== src/Dungeon/Runs.antt =====
-- Entering a run, reading the active one, and cancelling it.
use Prim.Native.String.{◌++◌ as text_append}
use aeon_backend.Base.Dict.{insert, lookup, map_values}
use aeon_backend.Base.{
  Bool, Error, Option, Result, String, [], err, false, if◌then◌else◌, none, not, ok, some, true, ℕ,
  ◌&&◌, ◌==◌, ◌||◌, nat_key, text_key,
}
use aeon_backend.Dungeon.Items.{
  DungeonCost, DungeonResult, DungeonRewards, EconomySnapshot, economy_snapshot,
}
use aeon_backend.Base.Int.{pos, ℤ}
use aeon_backend.Store.{DungeonRunRecovery, GameTicket, Store}
use aeon_backend.Base.Text.{trim_space}

pub record DungeonEnterRequest : Type 0 where
  pub op_id : String
  pub account_id : ℕ
  pub character_id : ℕ
  pub server_id : String
  pub chapter_id : ℤ
  pub floor_id : ℤ
  pub is_boss : Bool
  pub cost : DungeonCost

abbrev pub run_id : DungeonEnterRequest → String
run_id req = text_append "memory-" (trim_space req.op_id)

abbrev pub new_recovery : DungeonEnterRequest → ℕ → DungeonRunRecovery
new_recovery req clock = record {
  required = true;
  status = "";
  dungeon_run_id = run_id req;
  account_id = req.account_id;
  character_id = req.character_id;
  server_id = trim_space req.server_id;
  chapter_id = req.chapter_id;
  floor_id = req.floor_id;
  started_at = clock;
}

abbrev pub no_rewards : DungeonRewards
no_rewards = record {
  exp = pos 0;
  levels_gained = 0;
  level = pos 0;
  exp_to_next_level = pos 0;
  token_reward = "0";
  items = [];
  equipment_items = [];
}

abbrev pub entered_result : DungeonEnterRequest → EconomySnapshot → DungeonResult
entered_result req snapshot = record {
  dungeon_run_id = run_id req;
  chapter_id = req.chapter_id;
  floor_id = req.floor_id;
  is_boss = req.is_boss;
  status = "IN_PROGRESS";
  result = "";
  cost = req.cost;
  rewards = no_rewards;
  discarded_rewards = [];
  snapshot = snapshot;
}

abbrev pub is_required : Option DungeonRunRecovery → Bool
is_required none = false
is_required (some run) = run.required

unfoldable pub put_run : ℕ → DungeonRunRecovery → Store → Store
put_run id run s = record s { dungeon_recoveries = insert id run s.dungeon_recoveries }

-- The part of `DungeonEnter` behind the snapshot.
unfoldable pub begin_run :
    DungeonEnterRequest → EconomySnapshot → ℕ → Store → Result DungeonResult × Store
unfolding put_run
begin_run req snapshot clock s =
    if is_required (lookup req.character_id s.dungeon_recoveries)
    then (err Error.forbidden, s)
    else (ok (entered_result req snapshot), put_run req.character_id (new_recovery req clock) s)

-- `DungeonEnter`
unfoldable pub dungeon_enter : DungeonEnterRequest → ℕ → Store → Result DungeonResult × Store
unfolding economy_snapshot begin_run
dungeon_enter req clock s =
    let (snapshot, s₁) = economy_snapshot req.account_id req.character_id s in
    elim snapshot [ err e ↦ (err e, s₁) | ok shown ↦ begin_run req shown clock s₁ ]

-- `ActiveDungeonRun`
unfoldable pub active_dungeon_run : ℕ → ℕ → Store → Result DungeonRunRecovery
active_dungeon_run account id s = elim (lookup id s.dungeon_recoveries) [
  | none ↦ err Error.not_found
  | some run ↦
      if not run.required || not (run.account_id == account) then err Error.not_found else ok run
]

abbrev pub cancelled : DungeonRunRecovery → DungeonRunRecovery
cancelled run = record run { required = false; status = "CANCELLED" }

-- The loop over the tickets: those that would bring the player back are spent.
abbrev pub spend_ticket : ℕ → ℕ → String → GameTicket → GameTicket
spend_ticket account id server ticket =
    if (ticket.account_id == account)
      && ((ticket.character_id == id)
          || ((ticket.character_id == 0) && (ticket.server_id == server)))
      && not ticket.consumed
    then record ticket { consumed = true }
    else ticket

-- The branches of `CancelDungeonRun` on a run that is there.
unfoldable pub cancel_run :
    ℕ → ℕ → String → DungeonRunRecovery → Store → Result DungeonRunRecovery × Store
cancel_run account id wanted run s =
    if not (run.account_id == account) || not (run.dungeon_run_id == trim_space wanted)
    then (err Error.not_found, s)
    else if not run.required
    then (if run.status == "CANCELLED" then (ok run, s) else (err Error.forbidden, s))
    else (
      ok (cancelled run),
      record s {
        dungeon_recoveries = insert id (cancelled run) s.dungeon_recoveries;
        tickets = map_values (spend_ticket account id run.server_id) s.tickets;
      },
    )

-- `CancelDungeonRun`, whose reason is not kept.
unfoldable pub cancel_dungeon_run : ℕ → ℕ → String → Store → Result DungeonRunRecovery × Store
unfolding cancel_run
cancel_dungeon_run account id wanted s = elim (lookup id s.dungeon_recoveries) [
  | none ↦ (err Error.not_found, s)
  | some run ↦ cancel_run account id wanted run s
]
