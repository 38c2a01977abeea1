-- ===== src/Dungeon/Once.antt =====
-- One run at a time.
use aeon_backend.Base.{
  Result, ap, inl, inr, ok, subst, sym, true, ℕ, ◌∙◌, ◌≡◌, ◌≢◌, nat_key, String,
}
use aeon_backend.Dungeon.Items.{DungeonResult, EconomySnapshot, economy_snapshot}
use aeon_backend.Dungeon.Runs.{DungeonEnterRequest, dungeon_enter}
use aeon_backend.Store.{Store}
use aeon_backend.Dungeon.Active.{
  Active, Active-same, Result-cases, begin_run-Active, begin_run-refused, dungeon_enter-err,
  dungeon_enter-ok, economy_snapshot-runs, refused,
}
use aeon_backend.Dungeon.Later.{Later, Later-busy, NotEnded}

-- After an entry that goes through, no entry of the same character does, at any time and with any
-- request, until a run of the character is cancelled or finished: whatever runs are entered, also by
-- the character, runs of other characters cancelled and finished, and changes made in between that
-- leave the runs alone.
pub dungeon_enter-exclusive :
    (to_lower : String → String) (req req' : DungeonEnterRequest) (clock clock' : ℕ)
    (r r' : DungeonResult) (s later : Store)
    → req'.character_id ≡ req.character_id
    → (dungeon_enter req clock s).0 ≡ ok r
    → Later to_lower (NotEnded req.character_id) (dungeon_enter req clock s).1 later
    → (dungeon_enter req' clock' later).0 ≢ ok r'
dungeon_enter-exclusive to_lower req req' clock clock' r r' s later same h past again =
    elim (Result-cases (economy_snapshot req.account_id req.character_id s).0) [
      | inl (e, p) ↦ refused (sym (dungeon_enter-err req clock e s p) ∙ h)
      | inr (shown, p) ↦ second (
          subst (λ k. Active k true later) (sym same)
            (Later-busy to_lower req.character_id (dungeon_enter req clock s).1 later past
              (entered_first shown p)))
    ]
  where
    entered_first :
        (shown : EconomySnapshot)
        → (economy_snapshot req.account_id req.character_id s).0 ≡ ok shown
        → Active req.character_id true (dungeon_enter req clock s).1
    entered_first shown p =
        let q = dungeon_enter-ok req clock shown s p in
        subst (λ (x : Result DungeonResult × Store). Active req.character_id true x.1) (sym q)
          (begin_run-Active req shown clock r _ (sym (ap (λ x. x.0) q) ∙ h))

    second : Active req'.character_id true later → ⊥
    second a = elim (Result-cases (economy_snapshot req'.account_id req'.character_id later).0) [
      | inl (e, p) ↦ refused (sym (dungeon_enter-err req' clock' e later p) ∙ again)
      | inr (shown, p) ↦ refused (
          sym (
            ap (λ x. x.0) (dungeon_enter-ok req' clock' shown later p)
            ∙ ap (λ x. x.0)
                (begin_run-refused req' shown clock'
                  (economy_snapshot req'.account_id req'.character_id later).1
                  (Active-same req'.character_id true later
                    (economy_snapshot req'.account_id req'.character_id later).1
                    (economy_snapshot-runs req'.account_id req'.character_id later) a)))
          ∙ again)
    ]
