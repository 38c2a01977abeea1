-- ===== src/Dungeon/Active.antt =====
-- The run of a character, and what an entry does to it.
use aeon_backend.Base.Dict.{lookup, lookup-insert_self}
use aeon_backend.Base.{
  Bool, Bool-cases, Error, Option-cases, Result, ap, err, inl, inr, ok, refl, some, true, ℕ, ◌∙◌,
  ◌≡◌, ◌⊎◌, nat_key,
}
use aeon_backend.Dungeon.Items.{DungeonResult, EconomySnapshot, economy_snapshot}
use aeon_backend.Dungeon.Runs.{
  DungeonEnterRequest, begin_run, dungeon_enter, is_required, new_recovery, put_run,
}
use aeon_backend.Store.{DungeonRunRecovery, Store, ensure_token}
use aeon_backend.Players.Characters.{own_character}

-- The snapshot does not touch the runs.
pub economy_snapshot-runs :
    (account id : ℕ) (s : Store)
    → (economy_snapshot account id s).1.dungeon_recoveries ≡ s.dungeon_recoveries
unfolding economy_snapshot
economy_snapshot-runs account id s = elim (Option-cases (own_character account id s)) [
  | inl e ↦ rw (economy_snapshot, e) refl
  | inr (row, e) ↦ rw (economy_snapshot, e) (unfold ensure_token in refl)
]

abbrev pub Active : ℕ → Bool → Store → Type 0
Active id b s =
    (run : DungeonRunRecovery) × (lookup id s.dungeon_recoveries ≡ some run) × (run.required ≡ b)

pub Active-same :
    (id : ℕ) (b : Bool) (s t : Store)
    → t.dungeon_recoveries ≡ s.dungeon_recoveries
    → Active id b s
    → Active id b t
Active-same id b s t e a = (a.0, ap (lookup id) e ∙ a.1, a.2)

-- The two parts of an entry.
pub dungeon_enter-err :
    (req : DungeonEnterRequest) (clock : ℕ) (e : Error) (s : Store)
    → (economy_snapshot req.account_id req.character_id s).0 ≡ err e
    → (dungeon_enter req clock s).0 ≡ err e
unfolding dungeon_enter
dungeon_enter-err req clock e s h = rw (dungeon_enter, h) refl

pub dungeon_enter-ok :
    (req : DungeonEnterRequest) (clock : ℕ) (shown : EconomySnapshot) (s : Store)
    → (economy_snapshot req.account_id req.character_id s).0 ≡ ok shown
    → dungeon_enter req clock s
      ≡ begin_run req shown clock (economy_snapshot req.account_id req.character_id s).1
unfolding dungeon_enter
dungeon_enter-ok req clock shown s h = rw (dungeon_enter, h) refl

pub Result-cases :
    (r : Result EconomySnapshot)
    → ((e : Error) × (r ≡ err e)) ⊎ ((shown : EconomySnapshot) × (r ≡ ok shown))
Result-cases (err e) = inl (e, refl)
Result-cases (ok shown) = inr (shown, refl)

abbrev pub the_error : Error → Result DungeonResult
the_error e = err e

pub refused : {e : Error} {r : DungeonResult} → the_error e ≡ ok r → ⊥
refused p = cc p

pub begin_run-Active :
    (req : DungeonEnterRequest) (shown : EconomySnapshot) (clock : ℕ) (r : DungeonResult)
    (s : Store)
    → (begin_run req shown clock s).0 ≡ ok r
    → Active req.character_id true (begin_run req shown clock s).1
unfolding begin_run
begin_run-Active req shown clock r s h =
    elim (Bool-cases (is_required (lookup req.character_id s.dungeon_recoveries))) [
      | inl a ↦ absurd (refused (rw a at h))
      | inr a ↦ rw a (
        new_recovery req clock,
        unfold put_run in
            lookup-insert_self req.character_id (new_recovery req clock) s.dungeon_recoveries,
        refl,
      )
    ]

pub begin_run-refused :
    (req : DungeonEnterRequest) (shown : EconomySnapshot) (clock : ℕ) (s : Store)
    → Active req.character_id true s
    → begin_run req shown clock s ≡ (err Error.forbidden, s)
unfolding begin_run
begin_run-refused req shown clock s a = rw (begin_run, ap is_required a.1 ∙ a.2) refl
