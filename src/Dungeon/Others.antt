-- ===== src/Dungeon/Others.antt =====
-- Entries, cancellations and finishes leave the runs of other characters alone.
use aeon_backend.Base.Dict.{lookup, lookup-insert_ne}
use aeon_backend.Base.Text.{trim_space}
use aeon_backend.Base.{
  Bool-cases, Option-cases, String, inl, inr, nat_key, not, text_key, Bool, ℕ, ◌==◌, ◌∙◌, ◌≢◌, ◌||◌,
}
use aeon_backend.Dungeon.Items.{EconomySnapshot}
use aeon_backend.Dungeon.Runs.{
  DungeonEnterRequest, begin_run, cancel_dungeon_run, cancel_run, cancelled, is_required,
  new_recovery, put_run,
}
use aeon_backend.Dungeon.Finish.{
  DungeonFinishRequest, dungeon_finish, end_run, finished_run, may_finish, outcome, wrong_server,
}
use aeon_backend.Store.{DungeonRunRecovery, Store}
use aeon_backend.Players.Characters.{own_character}
use aeon_backend.Dungeon.Active.{Active, Active-same}
use aeon_backend.Dungeon.Ended.{finish-runs}

module _ (id : ℕ) (b : Bool) (s : Store) (h : Active id b s) where
  pub begin_run-other :
      (req : DungeonEnterRequest) (shown : EconomySnapshot) (clock : ℕ)
      → req.character_id ≢ id
      → Active id b (begin_run req shown clock s).1
  unfolding begin_run
  begin_run-other req shown clock other =
      elim (Bool-cases (is_required (lookup req.character_id s.dungeon_recoveries))) [
        | inl a ↦ rw a h
        | inr a ↦ rw a (
          h.0,
          unfold put_run in
              lookup-insert_ne id req.character_id (new_recovery req clock) s.dungeon_recoveries
                other
              ∙ h.1,
          h.2,
        )
      ]

  cancel_run-other :
      (account other : ℕ) (wanted : String) (run : DungeonRunRecovery)
      → other ≢ id
      → Active id b (cancel_run account other wanted run s).1
  unfolding cancel_run
  cancel_run-other account other wanted run apart =
      elim (Bool-cases
        (not (run.account_id == account) || not (run.dungeon_run_id == trim_space wanted))) [
          | inl a ↦ rw (cancel_run, a) h
          | inr a ↦ elim (Bool-cases run.required) [
            | inl b ↦
                rw (cancel_run, a, b)
                  (
                    h.0,
                    lookup-insert_ne id other (cancelled run) s.dungeon_recoveries apart ∙ h.1,
                    h.2,
                  )
            | inr b ↦ elim (Bool-cases (run.status == "CANCELLED")) [
              | inl c ↦ rw (cancel_run, a, b, c) h
              | inr c ↦ rw (cancel_run, a, b, c) h
            ]
          ]
        ]

  pub cancel-other :
      (account other : ℕ) (wanted : String)
      → other ≢ id
      → Active id b (cancel_dungeon_run account other wanted s).1
  unfolding cancel_dungeon_run
  cancel-other account other wanted apart =
      elim (Option-cases (lookup other s.dungeon_recoveries)) [
        | inl e ↦ rw (cancel_dungeon_run, e) h
        | inr (run, e) ↦
            rw (cancel_dungeon_run, e) (cancel_run-other account other wanted run apart)
      ]

  end_run-other :
      (to_lower : String → String) (req : DungeonFinishRequest)
      → req.character_id ≢ id
      → Active id b (end_run to_lower req s).1
  unfolding end_run
  end_run-other to_lower req other =
      elim (Option-cases (lookup req.character_id s.dungeon_recoveries)) [
        | inl e ↦ rw (end_run, e) h
        | inr (run, e) ↦ elim (Bool-cases (may_finish req run)) [
          | inr a ↦ rw (end_run, e, a) h
          | inl a ↦ elim (Bool-cases (wrong_server req run)) [
            | inl w ↦ rw (end_run, e, a, w) h
            | inr w ↦ elim (Option-cases (own_character req.account_id req.character_id s)) [
              | inl c ↦ rw (end_run, e, a, w, c) h
              | inr (row, c) ↦
                  rw (end_run, e, a, w, c)
                    (
                      h.0,
                      lookup-insert_ne id req.character_id
                            (finished_run (outcome to_lower req == "victory") run)
                            s.dungeon_recoveries other
                          ∙ h.1,
                      h.2,
                    )
            ]
          ]
        ]
      ]

  pub finish-other :
      (to_lower : String → String) (req : DungeonFinishRequest)
      → req.character_id ≢ id
      → Active id b (dungeon_finish to_lower req s).1
  finish-other to_lower req other =
      Active-same id b (end_run to_lower req s).1 (dungeon_finish to_lower req s).1
        (finish-runs to_lower req s) (end_run-other to_lower req other)
