-- ===== src/Dungeon/Rewards.antt =====
-- A run is rewarded once.
use aeon_backend.Base.Dict.{lookup}
use aeon_backend.Base.{
  Error, Result, String, err, inl, inr, ok, ◌≡◌, nat_key, text_key, ap, sym, ◌∙◌,
}
use aeon_backend.Dungeon.Finish.{DungeonFinishRequest, dungeon_finish}
use aeon_backend.Store.{Store}
use aeon_backend.Dungeon.Items.{DungeonResult}
use aeon_backend.Dungeon.Ended.{
  dungeon_finish-refused, end_run-cases, end_run-idle, finish-err, finish-runs,
}
use aeon_backend.Dungeon.Later.{Later, Later-idle, NotEntered}

-- A run is finished, and rewarded, once: after a finish that goes through, any finish for the same
-- character is forbidden and changes nothing, until a run of the character is entered again:
-- whatever runs are cancelled and finished, also of the character, runs of other characters entered,
-- and changes made in between that leave the runs alone.
pub dungeon_finish-once :
    (to_lower : String → String) (req req' : DungeonFinishRequest) (r : DungeonResult)
    (s later : Store)
    → req'.character_id ≡ req.character_id
    → (dungeon_finish to_lower req s).0 ≡ ok r
    → Later to_lower (NotEntered req.character_id) (dungeon_finish to_lower req s).1 later
    → dungeon_finish to_lower req' later ≡ (err Error.forbidden, later)
dungeon_finish-once to_lower req req' r s later same h past = elim (end_run-cases to_lower req s) [
  | inl (e, p) ↦ absurd (refused (sym (finish-err to_lower req e s p) ∙ h))
  | inr (gained, p) ↦
      let a = end_run-idle to_lower req gained s p in
      let idle =
        Later-idle to_lower req.character_id (dungeon_finish to_lower req s).1 later past
          (a.0, ap (lookup req.character_id) (finish-runs to_lower req s) ∙ a.1, a.2) in
      dungeon_finish-refused to_lower req' idle.0 later
        (ap (λ k. lookup k later.dungeon_recoveries) same ∙ idle.1) idle.2
]
  where
    the_error : Error → Result DungeonResult
    the_error e = err e

    refused : {e : Error} → the_error e ≡ ok r → ⊥
    refused p = cc p
