-- ===== src/Players/Characters/States.antt =====
-- `PlayerProfile` and `SavePlayerState` of internal/platform/store/store.go.
pub mod Saves
use aeon_backend.Base.Int.{ltb_ℤ, pos, ℤ}
use aeon_backend.Base.{
  Bool, Error, Result, String, err, if◌then◌else◌, leb, ltb, none, ok, some, true, ℕ, ◌&&◌, ◌-◌,
  ◌^◌, ◌≡◌, nat_key, Bool-cases, ap, inl, inr, refl, ◌∙◌,
}
use aeon_backend.Store.{Character, CharacterState, Store}
use aeon_backend.Base.Text.{trim_space}
use aeon_backend.Players.Characters.{new_state, own_character}
use aeon_backend.Base.Dict.{Dict, insert, lookup, lookup-insert_self}

pub record PlayerState : Type 0 where
  pub account_id : ℕ
  pub character_id : ℕ
  pub pos_x : ℕ
  pub pos_y : ℕ
  pub current_map : String
  pub play_time_sec : ℤ
  pub hunger : ℕ
  pub level : ℤ
  pub exp : ℤ
  pub exp_to_next_level : ℤ
  pub appearance : Dict String String
  pub character_name : String
  pub last_played : ℕ
  pub has_last_played : Bool

pub record PlayerSaveRequest : Type 0 where
  pub account_id : ℕ
  pub character_id : ℕ
  pub pos_x : ℕ
  pub pos_y : ℕ
  pub current_map : String
  pub play_time_sec : ℤ
  pub hunger : ℕ

-- `x < 0` for the float64 with this bit pattern: the sign bit is set, and it is neither -0 nor no
-- number.
unfoldable pub is_negative_float : ℕ → Bool
is_negative_float bits = ltb (2 ^ 63) bits && leb (bits - 2 ^ 63) 0x7ff0000000000000

abbrev pub profile_of : ℕ → ℕ → Character → CharacterState → PlayerState
profile_of account id row state = record {
  account_id = account;
  character_id = id;
  pos_x = state.pos_x;
  pos_y = state.pos_y;
  current_map = state.current_map;
  play_time_sec = state.play_time_sec;
  hunger = state.hunger;
  level = row.level;
  exp = row.exp;
  exp_to_next_level = pos 0;
  appearance = row.appearance;
  character_name = row.name;
  last_played = state.last_played;
  has_last_played = state.has_last_played;
}

-- `PlayerProfile`: a state that is missing is put in its place.
unfoldable pub player_profile : ℕ → ℕ → Store → Result PlayerState × Store
unfolding own_character
player_profile account id s = elim (own_character account id s) [
  | none ↦ (err Error.not_found, s)
  | some row ↦ elim (lookup id s.character_states) [
    | some state ↦ (ok (profile_of account id row state), s)
    | none ↦ (
      ok (profile_of account id row new_state),
      record s { character_states = insert id new_state s.character_states },
    )
  ]
]

abbrev pub saved_state : PlayerSaveRequest → ℕ → CharacterState
saved_state req now = record {
  pos_x = req.pos_x;
  pos_y = req.pos_y;
  current_map = trim_space req.current_map;
  play_time_sec = req.play_time_sec;
  hunger = req.hunger;
  last_played = now;
  has_last_played = true;
}

-- `SavePlayerState`
unfoldable pub save_player_state : PlayerSaveRequest → ℕ → Store → Result (Unit {0}) × Store
unfolding own_character is_negative_float
save_player_state req now s = elim (own_character req.account_id req.character_id s) [
  | none ↦ (err Error.not_found, s)
  | some row ↦
      if ltb_ℤ req.play_time_sec (pos 0)
      then (err (Error.message "playTimeSec must be non-negative"), s)
      else if is_negative_float req.hunger
      then (err (Error.message "hunger must be non-negative"), s)
      else (
        ok tt,
        record s {
          character_states = insert req.character_id (saved_state req now) s.character_states;
        },
      )
]
