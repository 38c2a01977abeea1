-- ===== src/Players/Characters.antt =====
-- The characters of an account: `CreateCharacterWithAppearance`, `Characters`, `Character`,
-- `DeleteCharacter`, `PlayerProfile` and `SavePlayerState` of internal/platform/store/store.go. A
-- value of an appearance is its JSON text.
pub mod Slots
pub mod History
pub mod States
use aeon_backend.Base.{
  Bool, Error, List, Option, Result, String, [], err, false, if◌then◌else◌, map, message, none, not,
  not_found, ok, some, sort_by, true, ℕ, ◌&&◌, ◌==◌, ◌∷◌, nat_key,
}
use aeon_backend.Base.Dict.{Dict, erase, insert, lookup}
use aeon_backend.Store.{Character, CharacterState, Store, next}
use aeon_backend.Base.Int.{pos}
use aeon_backend.Base.Rows.{select}

-- The entry that the loop over the map leaves in `used`.
unfoldable pub slot_used : ℕ → ℕ → Dict ℕ Character → Bool
slot_used account slot [] = false
slot_used account slot ((id, row) ∷ m) =
    let rest = slot_used account slot m in
    if (row.account_id == account) && not row.deleted && (row.slot_index == slot)
    then true
    else rest

-- The loop over the candidates 0, 1 and 2.
unfoldable pub first_free : ℕ → List ℕ → Dict ℕ Character → Option ℕ
unfolding slot_used
first_free account [] m = none
first_free account (slot ∷ slots) m =
    let rest = first_free account slots m in if slot_used account slot m then rest else some slot

abbrev pub unix_epoch : ℕ
unix_epoch = 62135596800000000000

-- `float64(100)`
abbrev pub full_hunger : ℕ
full_hunger = 0x4059000000000000

abbrev pub new_character : ℕ → ℕ → String → ℕ → Option (Dict String String) → ℕ → Character
new_character id account name slot appearance clock = record {
  id = id;
  account_id = account;
  name = name;
  slot_index = slot;
  level = pos 1;
  exp = pos 0;
  highest_cleared_chapter_id = pos 0;
  highest_cleared_floor_id = pos 0;
  appearance = elim appearance [ none ↦ [] | some m ↦ m ];
  created_at = clock;
  last_played = unix_epoch;
  has_last_played = false;
  deleted = false;
}

abbrev pub new_state : CharacterState
new_state = record {
  pos_x = 0;
  pos_y = 0;
  current_map = "";
  play_time_sec = pos 0;
  hunger = full_hunger;
  last_played = unix_epoch;
  has_last_played = false;
}

-- The branch that found a slot.
unfoldable pub place_character :
    ℕ → String → Option (Dict String String) → ℕ → ℕ → Store → Character × Store
place_character account name appearance clock slot s =
    let (id, s₁) = next s in
    let row = new_character id account name slot appearance clock in
    (
      row,
      record s₁ {
        characters = insert id row s₁.characters;
        character_states = insert id new_state s₁.character_states;
      },
    )

-- `CreateCharacterWithAppearance`; `CreateCharacter` calls it with no appearance.
unfoldable pub create_character :
    ℕ → String → Option (Dict String String) → ℕ → Store → Result Character × Store
unfolding first_free place_character
create_character account name appearance clock s = elim (lookup account s.accounts) [
  | none ↦ (err Error.not_found, s)
  | some owner ↦ elim (first_free account (0 ∷ 1 ∷ 2 ∷ []) s.characters) [
    | none ↦ (err (Error.message "character slots are full"), s)
    | some slot ↦
        let (row, s₁) = place_character account name appearance clock slot s in (ok row, s₁)
  ]
]

-- The copy of a row with what its state says.
abbrev pub with_state : Store → Character → Character
with_state s row = elim (lookup row.id s.character_states) [
  | none ↦ row
  | some state ↦ record row {
    last_played = state.last_played;
    has_last_played = state.has_last_played;
  }
]

abbrev pub owned : ℕ → Character → Bool
owned account row = (row.account_id == account) && not row.deleted

-- `Characters`: identifiers are compared as int64 where the rows are sorted, which agrees with
-- their bit patterns as long as the counter is positive.
unfoldable pub characters_of : (Dict ℕ Character → Dict ℕ Character) → ℕ → Store → List Character
unfolding select sort_by
characters_of visit account s =
    sort_by (λ row. row.id)
      (map (λ (e : ℕ × Character). with_state s e.1)
        (select (λ e. owned account e.1) (visit s.characters)))

-- The row, if it is there, of the account and not deleted: the test of the next operations.
unfoldable pub own_character : ℕ → ℕ → Store → Option Character
own_character account id s = elim (lookup id s.characters) [
  | none ↦ none
  | some row ↦ if owned account row then some row else none
]

-- `Character`
unfoldable pub character_of : ℕ → ℕ → Store → Option Character
unfolding own_character
character_of account id s = elim (own_character account id s) [
  | none ↦ none
  | some row ↦ some (elim (lookup id s.character_states) [
    | none ↦ row
    | some state ↦ record row {
      last_played = state.last_played;
      has_last_played = state.has_last_played;
    }
  ])
]

abbrev pub deleted_row : Character → Character
deleted_row row = record row { deleted = true }

-- `DeleteCharacter`
unfoldable pub delete_character : ℕ → ℕ → Store → Result (Unit {0}) × Store
unfolding own_character
delete_character account id s = elim (own_character account id s) [
  | none ↦ (err Error.not_found, s)
  | some row ↦ (
    ok tt,
    record s {
      characters = insert id (deleted_row row) s.characters;
      character_states = erase id s.character_states;
    },
  )
]
