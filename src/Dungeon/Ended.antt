-- ===== src/Dungeon/Ended.antt =====
-- What a finish does to the run of a character.
use aeon_backend.Base.Dict.{lookup, lookup-insert_self}
use aeon_backend.Base.{
  Bool-cases, Error, Option-cases, Result, String, err, false, inl, inr, ok, refl, some, ℕ, ◌==◌,
  ◌≡◌, nat_key, text_key, ap, ◌∙◌, ◌⊎◌,
}
use aeon_backend.Dungeon.Finish.{
  DungeonFinishRequest, dungeon_finish, end_run, finished_run, may_finish, outcome, wrong_server,
}
use aeon_backend.Store.{DungeonRunRecovery, Store}
use aeon_backend.Players.Characters.{own_character}
use aeon_backend.Dungeon.Items.{economy_snapshot}
use aeon_backend.Dungeon.Active.{Result-cases, economy_snapshot-runs}

module _ (to_lower : String → String) where
  end_run-refused :
      (req : DungeonFinishRequest) (run : DungeonRunRecovery) (s : Store)
      → lookup req.character_id s.dungeon_recoveries ≡ some run
      → run.required ≡ false
      → end_run to_lower req s ≡ (err Error.forbidden, s)
  unfolding end_run
  end_run-refused req run s there idle = rw (end_run, there, idle) refl

  pub dungeon_finish-refused :
      (req : DungeonFinishRequest) (run : DungeonRunRecovery) (s : Store)
      → lookup req.character_id s.dungeon_recoveries ≡ some run
      → run.required ≡ false
      → dungeon_finish to_lower req s ≡ (err Error.forbidden, s)
  unfolding dungeon_finish
  dungeon_finish-refused req run s there idle =
      rw (dungeon_finish, end_run-refused req run s there idle)
        (ap (λ (x : Result ℕ × Store). (err Error.forbidden, x.1))
          (end_run-refused req run s there idle))

  -- A run that was finished is no longer required.
  pub end_run-idle :
      (req : DungeonFinishRequest) (gained : ℕ) (s : Store)
      → (end_run to_lower req s).0 ≡ ok gained
      → (run : DungeonRunRecovery) × (lookup req.character_id
            (end_run to_lower req s).1.dungeon_recoveries
          ≡ some run)
        × (run.required ≡ false)
  unfolding end_run
  end_run-idle req gained s h = elim (Option-cases (lookup req.character_id s.dungeon_recoveries)) [
    | inl e ↦ absurd (refused (rw (end_run, e) at h))
    | inr (run, e) ↦ elim (Bool-cases (may_finish req run)) [
      | inr a ↦ absurd (refused (rw (end_run, e, a) at h))
      | inl a ↦ elim (Bool-cases (wrong_server req run)) [
        | inl b ↦ absurd (refused (rw (end_run, e, a, b) at h))
        | inr b ↦ elim (Option-cases (own_character req.account_id req.character_id s)) [
          | inl c ↦ absurd (refused (rw (end_run, e, a, b, c) at h))
          | inr (row, c) ↦ (
            finished_run (outcome to_lower req == "victory") run,
            rw (end_run, e, a, b, c)
                (lookup-insert_self req.character_id
                  (finished_run (outcome to_lower req == "victory") run) s.dungeon_recoveries),
            refl,
          )
        ]
      ]
    ]
  ]
    where
      the_error : Error → Result ℕ
      the_error e = err e

      refused : {e : Error} → the_error e ≡ ok gained → ⊥
      refused p = cc p

  pub finish-err :
      (req : DungeonFinishRequest) (e : Error) (s : Store)
      → (end_run to_lower req s).0 ≡ err e
      → (dungeon_finish to_lower req s).0 ≡ err e
  unfolding dungeon_finish
  finish-err req e s h = rw (dungeon_finish, h) refl

  pub finish-ok :
      (req : DungeonFinishRequest) (gained : ℕ) (s : Store)
      → (end_run to_lower req s).0 ≡ ok gained
      → (dungeon_finish to_lower req s).1
        ≡ (economy_snapshot req.account_id req.character_id (end_run to_lower req s).1).1
  unfolding dungeon_finish
  finish-ok req gained s h =
      elim (Result-cases
        (economy_snapshot req.account_id req.character_id (end_run to_lower req s).1).0) [
          | inl (e, p) ↦ rw (dungeon_finish, h, p) refl
          | inr (shown, p) ↦ rw (dungeon_finish, h, p) refl
        ]

  finish-failed :
      (req : DungeonFinishRequest) (e : Error) (s : Store)
      → (end_run to_lower req s).0 ≡ err e
      → (dungeon_finish to_lower req s).1 ≡ (end_run to_lower req s).1
  unfolding dungeon_finish
  finish-failed req e s h = rw (dungeon_finish, h) refl

  pub end_run-cases :
      (req : DungeonFinishRequest) (s : Store)
      → ((e : Error) × ((end_run to_lower req s).0 ≡ err e))
        ⊎ ((gained : ℕ) × ((end_run to_lower req s).0 ≡ ok gained))
  end_run-cases req s = either (end_run to_lower req s).0
    where
      either : (x : Result ℕ) → ((e : Error) × (x ≡ err e)) ⊎ ((n : ℕ) × (x ≡ ok n))
      either (err e) = inl (e, refl)
      either (ok n) = inr (n, refl)

  -- The snapshot of a finish leaves the runs as the finish of the run does.
  pub finish-runs :
      (req : DungeonFinishRequest) (s : Store)
      → (dungeon_finish to_lower req s).1.dungeon_recoveries
        ≡ (end_run to_lower req s).1.dungeon_recoveries
  finish-runs req s = elim (end_run-cases req s) [
    | inl (e, p) ↦ ap (λ (t : Store). t.dungeon_recoveries) (finish-failed req e s p)
    | inr (gained, p) ↦
        ap (λ (t : Store). t.dungeon_recoveries) (finish-ok req gained s p)
        ∙ economy_snapshot-runs req.account_id req.character_id (end_run to_lower req s).1
  ]
