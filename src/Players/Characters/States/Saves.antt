-- ===== src/Players/Characters/States/Saves.antt =====
-- A saved state is read back.
use aeon_backend.Base.Int.{ltb_ℤ, pos}
use aeon_backend.Base.{
  All, Bool-cases, Error, List, Option-cases, Result, [], err, inl, inr, nat_key, ok, refl, some,
  subst, sym, true, ℕ, ◌∙◌, ◌∷◌, ◌≡◌, ◌≢◌,
}
use aeon_backend.Store.{Character, CharacterState, Store}
use aeon_backend.Base.Text.{trim_space}
use aeon_backend.Players.Characters.{own_character}
use aeon_backend.Players.Characters.States.{
  PlayerSaveRequest, PlayerState, is_negative_float, player_profile, profile_of, save_player_state,
  saved_state,
}
use aeon_backend.Base.Dict.{insert, lookup, lookup-insert_ne, lookup-insert_self}

save_player_state-ok :
    (req : PlayerSaveRequest) (now : ℕ) (row : Character) (s : Store)
    → own_character req.account_id req.character_id s ≡ some row
    → (save_player_state req now s).0 ≡ ok tt
    → (save_player_state req now s).1 ≡ record s {
      character_states = insert req.character_id (saved_state req now) s.character_states;
    }
unfolding save_player_state
save_player_state-ok req now row s own done = elim (Bool-cases (ltb_ℤ req.play_time_sec (pos 0))) [
  | inl a ↦ absurd (refused (rw (save_player_state, own, a) at done))
  | inr a ↦ elim (Bool-cases (is_negative_float req.hunger)) [
    | inl b ↦ absurd (refused (rw (save_player_state, own, a, b) at done))
    | inr b ↦ rw (save_player_state, own, a, b) refl
  ]
]
  where
    the_error : Error → Result (Unit {0})
    the_error e = err e

    refused : {e : Error} → the_error e ≡ ok tt → ⊥
    refused p = cc p

player_profile-found :
    (account id : ℕ) (row : Character) (state : CharacterState) (s : Store)
    → own_character account id s ≡ some row
    → lookup id s.character_states ≡ some state
    → (player_profile account id s).0 ≡ ok (profile_of account id row state)
unfolding player_profile
player_profile-found account id row state s own there = rw (player_profile, own, there) refl

-- Saves, each at its time.
abbrev pub save_all : List (PlayerSaveRequest × ℕ) → Store → Store
save_all [] s = s
save_all ((req, now) ∷ more) s = save_all more (save_player_state req now s).1

-- The character is of the account, and has this state.
abbrev Stands : ℕ → ℕ → Character → CharacterState → Store → Type 0
Stands account id row state s =
    (own_character account id s ≡ some row) × (lookup id s.character_states ≡ some state)

-- A write of a character's state.
abbrev written : ℕ → CharacterState → Store → Store
written id state s = record s { character_states = insert id state s.character_states }

Stands-written_self :
    (account id : ℕ) (row : Character) (state : CharacterState) (s : Store)
    → own_character account id s ≡ some row
    → Stands account id row state (written id state s)
Stands-written_self account id row state s own =
    (unfold own_character in own, lookup-insert_self id state s.character_states)

module _ (account id : ℕ) (row : Character) (state : CharacterState) where
  Stands-save :
      (req : PlayerSaveRequest) (now : ℕ) (s : Store)
      → req.character_id ≢ id
      → Stands account id row state s
      → Stands account id row state (save_player_state req now s).1
  unfolding save_player_state
  Stands-save req now s other h =
      elim (Option-cases (own_character req.account_id req.character_id s)) [
        | inl e ↦ rw (save_player_state, e) h
        | inr (r, e) ↦ elim (Bool-cases (ltb_ℤ req.play_time_sec (pos 0))) [
          | inl a ↦ rw (save_player_state, e, a) h
          | inr a ↦ elim (Bool-cases (is_negative_float req.hunger)) [
            | inl b ↦ rw (save_player_state, e, a, b) h
            | inr b ↦
                rw (save_player_state, e, a, b)
                  (
                    unfold own_character in h.0,
                    lookup-insert_ne id req.character_id (saved_state req now) s.character_states
                          other
                        ∙ h.1,
                  )
          ]
        ]
      ]

  Stands-save_all :
      (more : List (PlayerSaveRequest × ℕ)) (s : Store)
      → All (λ (e : PlayerSaveRequest × ℕ). e.0.character_id ≢ id) more
      → Stands account id row state s
      → Stands account id row state (save_all more s)
  Stands-save_all [] s others h = h
  Stands-save_all ((req, now) ∷ more) s others h =
      Stands-save_all more (save_player_state req now s).1 others.1
        (Stands-save req now s others.0 h)

-- What a profile shows of the request that was saved, and of the character's row.
pub record ReadsBack (req : PlayerSaveRequest) (now : ℕ) (row : Character) (shown : PlayerState)
    : Type 0 where
  pub account_id : shown.account_id ≡ req.account_id
  pub character_id : shown.character_id ≡ req.character_id
  pub pos_x : shown.pos_x ≡ req.pos_x
  pub pos_y : shown.pos_y ≡ req.pos_y
  pub current_map : shown.current_map ≡ trim_space req.current_map
  pub play_time_sec : shown.play_time_sec ≡ req.play_time_sec
  pub hunger : shown.hunger ≡ req.hunger
  pub last_played : shown.last_played ≡ now
  pub has_last_played : shown.has_last_played ≡ true
  pub level : shown.level ≡ row.level
  pub exp : shown.exp ≡ row.exp
  pub appearance : shown.appearance ≡ row.appearance
  pub character_name : shown.character_name ≡ row.name

-- After a save that goes through, and any saves for other characters, the profile of the character
-- reads it back: the position, the map without the spaces around it, the play time, the hunger and
-- the time of saving, with the level, experience, appearance and name of the character's row.
pub player_profile-save_player_state :
    (req : PlayerSaveRequest) (now : ℕ) (row : Character) (more : List (PlayerSaveRequest × ℕ))
    (s : Store)
    → own_character req.account_id req.character_id s ≡ some row
    → (save_player_state req now s).0 ≡ ok tt
    → All (λ (e : PlayerSaveRequest × ℕ). e.0.character_id ≢ req.character_id) more
    → let later = save_all more (save_player_state req now s).1 in
      (shown : PlayerState) × ((player_profile req.account_id req.character_id later).0 ≡ ok shown)
      × ReadsBack req now row shown
player_profile-save_player_state req now row more s own done others =
    let h =
      Stands-save_all req.account_id req.character_id row (saved_state req now) more
        (save_player_state req now s).1 others
        (subst (Stands req.account_id req.character_id row (saved_state req now))
          (sym (save_player_state-ok req now row s own done))
          (Stands-written_self req.account_id req.character_id row (saved_state req now) s own)) in
    (
      profile_of req.account_id req.character_id row (saved_state req now),
      player_profile-found req.account_id req.character_id row (saved_state req now)
          (save_all more (save_player_state req now s).1) h.0 h.1,
      record {
        account_id = refl;
        character_id = refl;
        pos_x = refl;
        pos_y = refl;
        current_map = refl;
        play_time_sec = refl;
        hunger = refl;
        last_played = refl;
        has_last_played = refl;
        level = refl;
        exp = refl;
        appearance = refl;
        character_name = refl;
      },
    )
