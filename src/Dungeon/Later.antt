-- ===== src/Dungeon/Later.antt =====
-- What may happen to runs later, and what it leaves of a character's run.
use aeon_backend.Base.Dict.{lookup}
use aeon_backend.Base.Text.{trim_space}
use aeon_backend.Base.{
  refl, Bool-cases, Result, String, ap, false, inl, inr, nat_key, not, subst, sym, text_key, true,
  Bool, ℕ, ◌==◌, ◌∙◌, ◌≡◌, ◌≢◌, ◌||◌,
}
use aeon_backend.Dungeon.Items.{DungeonResult, EconomySnapshot, economy_snapshot}
use aeon_backend.Dungeon.Runs.{
  DungeonEnterRequest, begin_run, cancel_dungeon_run, cancel_run, dungeon_enter,
}
use aeon_backend.Dungeon.Finish.{DungeonFinishRequest, dungeon_finish}
use aeon_backend.Store.{DungeonRunRecovery, Store}
use aeon_backend.Dungeon.Active.{
  Active, Active-same, Result-cases, begin_run-refused, economy_snapshot-runs,
}
use aeon_backend.Dungeon.Others.{begin_run-other, cancel-other, finish-other}
use aeon_backend.Dungeon.Ended.{dungeon_finish-refused}

-- The operations on runs.
pub data RunStep : Type 0 where
  enters : DungeonEnterRequest → ℕ → RunStep
  cancels : ℕ → ℕ → String → RunStep
  finishes : DungeonFinishRequest → RunStep

abbrev pub run_step : (String → String) → RunStep → Store → Store
run_step to_lower (enters req clock) s = (dungeon_enter req clock s).1
run_step to_lower (cancels account id wanted) s = (cancel_dungeon_run account id wanted s).1
run_step to_lower (finishes req) s = (dungeon_finish to_lower req s).1

-- The step does not enter a run of the character.
abbrev pub NotEntered : ℕ → RunStep → Type 0
NotEntered id (enters req clock) = req.character_id ≢ id
NotEntered id (cancels account other wanted) = Unit
NotEntered id (finishes req) = Unit

-- The step neither cancels nor finishes a run of the character.
abbrev pub NotEnded : ℕ → RunStep → Type 0
NotEnded id (enters req clock) = Unit
NotEnded id (cancels account other wanted) = other ≢ id
NotEnded id (finishes req) = req.character_id ≢ id

-- The stores that allowed steps lead to, with any changes in between that leave the runs alone.
pub data Later (to_lower : String → String) (Allowed : RunStep → Type 0) (s : Store)
    : Store → Type 0 where
  here : Later to_lower Allowed s s
  run_next :
      {t : Store}
      → Later to_lower Allowed s t
      → (u : RunStep) → Allowed u
      → Later to_lower Allowed s (run_step to_lower u t)
  elsewhere :
      {t : Store}
      → Later to_lower Allowed s t
      → (later : Store) → later.dungeon_recoveries ≡ t.dungeon_recoveries
      → Later to_lower Allowed s later

-- An entry keeps the run of a character that it begins no run for.
enter-keeps :
    (id : ℕ) (b : Bool) (req : DungeonEnterRequest) (clock : ℕ) (s : Store)
    → ((shown : EconomySnapshot) (t : Store)
        → Active id b t
        → Active id b (begin_run req shown clock t).1)
    → Active id b s
    → Active id b (dungeon_enter req clock s).1
unfolding dungeon_enter
enter-keeps id b req clock s begins h =
    let after = (economy_snapshot req.account_id req.character_id s).1 in
    let a = Active-same id b s after (economy_snapshot-runs req.account_id req.character_id s) h in
    elim (Result-cases (economy_snapshot req.account_id req.character_id s).0) [
      | inl (e, p) ↦ rw (dungeon_enter, p) a
      | inr (shown, p) ↦ rw (dungeon_enter, p) (begins shown after a)
    ]

enter-other :
    (id : ℕ) (b : Bool) (req : DungeonEnterRequest) (clock : ℕ) (s : Store)
    → req.character_id ≢ id
    → Active id b s
    → Active id b (dungeon_enter req clock s).1
enter-other id b req clock s other =
    enter-keeps id b req clock s (λ shown t a. begin_run-other id b t a req shown clock other)

-- While a run is on, an entry of anyone leaves it on.
enter-busy :
    (id : ℕ) (req : DungeonEnterRequest) (clock : ℕ) (s : Store)
    → Active id true s
    → Active id true (dungeon_enter req clock s).1
enter-busy id req clock s = elim (Bool-cases (req.character_id == id)) [
  | inr apart ↦
      enter-other id true req clock s
        (λ p. cc (sym apart ∙ (nat_key.agrees req.character_id id).1 p))
  | inl same ↦ enter-keeps id true req clock s (λ shown t a.
      subst (λ (r : Result DungeonResult × Store). Active id true r.1)
        (sym (
          begin_run-refused req shown clock t
            (subst (λ k. Active k true t) (sym ((nat_key.agrees req.character_id id).0 same)) a)))
        a)
]

-- A run that is over stays so under a cancellation and a finish of anyone.
cancel_run-idle :
    (account id : ℕ) (wanted : String) (run : DungeonRunRecovery) (s : Store)
    → run.required ≡ false
    → (cancel_run account id wanted run s).1 ≡ s
unfolding cancel_run
cancel_run-idle account id wanted run s idle =
    elim (Bool-cases
      (not (run.account_id == account) || not (run.dungeon_run_id == trim_space wanted))) [
        | inl a ↦ rw (cancel_run, a) refl
        | inr a ↦ elim (Bool-cases (run.status == "CANCELLED")) [
          | inl c ↦ rw (cancel_run, a, idle, c) refl
          | inr c ↦ rw (cancel_run, a, idle, c) refl
        ]
      ]

cancel-idle :
    (id account other : ℕ) (wanted : String) (s : Store)
    → Active id false s
    → Active id false (cancel_dungeon_run account other wanted s).1
unfolding cancel_dungeon_run
cancel-idle id account other wanted s h = elim (Bool-cases (other == id)) [
  | inr apart ↦
      cancel-other id false s h account other wanted
        (λ p. cc (sym apart ∙ (nat_key.agrees other id).1 p))
  | inl same ↦
      let there =
        ap (λ k. lookup k s.dungeon_recoveries) ((nat_key.agrees other id).0 same) ∙ h.1 in
      rw (cancel_dungeon_run, there)
        (subst (Active id false) (sym (cancel_run-idle account other wanted h.0 s h.2)) h)
]

finish-idle :
    (to_lower : String → String) (id : ℕ) (req : DungeonFinishRequest) (s : Store)
    → Active id false s
    → Active id false (dungeon_finish to_lower req s).1
finish-idle to_lower id req s h = elim (Bool-cases (req.character_id == id)) [
  | inr apart ↦
      finish-other id false s h to_lower req
        (λ p. cc (sym apart ∙ (nat_key.agrees req.character_id id).1 p))
  | inl same ↦
      let e = (nat_key.agrees req.character_id id).0 same in
      subst (λ (r : Result DungeonResult × Store). Active id false r.1)
        (sym (
          dungeon_finish-refused to_lower req h.0 s
            (ap (λ k. lookup k s.dungeon_recoveries) e ∙ h.1) h.2))
        h
]

step-idle :
    (to_lower : String → String) (id : ℕ) (u : RunStep) (s : Store)
    → NotEntered id u
    → Active id false s
    → Active id false (run_step to_lower u s)
step-idle to_lower id (enters req clock) s other h = enter-other id false req clock s other h
step-idle to_lower id (cancels account other wanted) s spared h =
    cancel-idle id account other wanted s h
step-idle to_lower id (finishes req) s spared h = finish-idle to_lower id req s h

step-busy :
    (to_lower : String → String) (id : ℕ) (u : RunStep) (s : Store)
    → NotEnded id u
    → Active id true s
    → Active id true (run_step to_lower u s)
step-busy to_lower id (enters req clock) s spared h = enter-busy id req clock s h
step-busy to_lower id (cancels account other wanted) s apart h =
    cancel-other id true s h account other wanted apart
step-busy to_lower id (finishes req) s apart h = finish-other id true s h to_lower req apart

module _ (to_lower : String → String) (id : ℕ) (s : Store) where
  pub Later-idle :
      (later : Store)
      → Later to_lower (NotEntered id) s later
      → Active id false s
      → Active id false later
  Later-idle later here h = h
  Later-idle later (run_next {t = t} past u other) h =
      step-idle to_lower id u t other (Later-idle t past h)
  Later-idle later (elsewhere {t = t} past t' same) h =
      Active-same id false t later same (Later-idle t past h)

  pub Later-busy :
      (later : Store)
      → Later to_lower (NotEnded id) s later
      → Active id true s
      → Active id true later
  Later-busy later here h = h
  Later-busy later (run_next {t = t} past u other) h =
      step-busy to_lower id u t other (Later-busy t past h)
  Later-busy later (elsewhere {t = t} past t' same) h =
      Active-same id true t later same (Later-busy t past h)
