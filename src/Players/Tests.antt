-- ===== src/Players/Tests.antt =====
-- Account 1001 of the wallet `w`, its character 1002, and the levels of some rules.
use aeon_backend.Players.Accounts.{new_account, upsert_account_by_wallet}
use aeon_backend.Players.Characters.{create_character, full_hunger, new_character, own_character}
use aeon_backend.Players.Characters.States.{
  PlayerSaveRequest, PlayerState, player_profile, save_player_state,
}
use aeon_backend.Players.Characters.States.Saves.{
  ReadsBack, player_profile-save_player_state, save_all,
}
use aeon_backend.Store.{Account, Character, Store, new, next_of}
use aeon_backend.Base.Int.{pos, add64, mul64, sub64}
use aeon_backend.Players.Levels.{LevelProgressionRules, at_level, progress}
use aeon_backend.Players.Characters.History.{Step, login, creates, take_steps, take_steps-Slotted}
use aeon_backend.Base.{List, [], none, ok, refl, some, ◌∷◌, ◌≡◌, ne_of_==-false, nat_key}
use aeon_backend.Players.Accounts.Wallets.{SameAccount, upsert_account_by_wallet-again}
use aeon_backend.Players.Characters.Slots.{Slotted}

abbrev two_steps : List Step
two_steps = login "w" 5 ∷ creates 1001 "hero" none 6 ∷ []

abbrev with_hero : Store
with_hero = take_steps two_steps new

take_steps-Slotted_example : Slotted with_hero
take_steps-Slotted_example = take_steps-Slotted two_steps

abbrev first_account : Account
first_account = new_account 1001 "w" 5

first_login : (upsert_account_by_wallet "w" 5 new).0 ≡ some first_account
unfolding upsert_account_by_wallet new
first_login = refl

upsert_account_by_wallet-again_example :
    let once = (upsert_account_by_wallet "w" 5 new).1 in
    let twice = upsert_account_by_wallet "w" 9 once in
    (row' : Account) × (twice.0 ≡ some row')
    × SameAccount 9 first_account row'
    × (next_of twice.1 ≡ next_of once)
    × (twice.1.by_wallet ≡ once.by_wallet)
upsert_account_by_wallet-again_example =
    upsert_account_by_wallet-again "w" 5 9 first_account new first_login

abbrev hero : Character
hero = new_character 1002 1001 "hero" 0 none 6

hero_there : own_character 1001 1002 with_hero ≡ some hero
unfolding upsert_account_by_wallet create_character own_character new
hero_there = refl

abbrev save_request : PlayerSaveRequest
save_request = record {
  account_id = 1001;
  character_id = 1002;
  pos_x = 0x3ff0000000000000;
  pos_y = 0;
  current_map = " town ";
  play_time_sec = pos 60;
  hunger = full_hunger;
}

abbrev other_save : PlayerSaveRequest
other_save = record save_request { character_id = 1003 }

saved : (save_player_state save_request 20 with_hero).0 ≡ ok tt
unfolding upsert_account_by_wallet create_character own_character save_player_state new
saved = refl

player_profile-save_player_state_example :
    let later = save_all ((other_save, 30) ∷ []) (save_player_state save_request 20 with_hero).1 in
    (shown : PlayerState) × ((player_profile 1001 1002 later).0 ≡ ok shown)
    × ReadsBack save_request 20 hero shown
player_profile-save_player_state_example =
    player_profile-save_player_state save_request 20 hero ((other_save, 30) ∷ []) with_hero
      hero_there saved (ne_of_==-false 1003 1002 refl, tt)

abbrev rules : LevelProgressionRules
rules = record { max_level = pos 5; base = pos 100; linear = pos 0; quadratic = pos 0 }

third_level : progress rules (pos 1) (pos 250) ≡ at_level 1 3 (pos 50)
unfolding progress add64 mul64 sub64
third_level = refl
