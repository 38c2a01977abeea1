-- ===== src/Players/Characters/History.antt =====
-- Logins, creations and deletions in any order.
use aeon_backend.Players.Accounts.Wallets.{upsert-dangling, upsert-known, upsert-unknown}
use aeon_backend.Players.Characters.{
  create_character, delete_character, deleted_row, first_free, own_character, owned,
}
use aeon_backend.Base.{
  Bool, List, Option, Option-cases, String, [], ap, arith, false, inl, inr, refl, some, sym, true,
  ℕ, ◌&&◌, ◌==◌, ◌∙◌, ◌∷◌, ◌≡◌, nat_key, text_key,
}
use aeon_backend.Store.{Character, CharacterState, Store, new}
use aeon_backend.Base.Dict.{Dict, erase, insert, insert-cases, lookup}
use aeon_backend.Players.Characters.Slots.{Slotted, first_free-some, place_character-Slotted}
use aeon_backend.Players.Accounts.{upsert_account_by_wallet, open_account}

pub data Step : Type 0 where
  login : String → ℕ → Step
  creates : ℕ → String → Option (Dict String String) → ℕ → Step
  deletes : ℕ → ℕ → Step

abbrev pub take_step : Step → Store → Store
take_step (login wallet now) s = (upsert_account_by_wallet wallet now s).1
take_step (creates account name appearance clock) s =
    (create_character account name appearance clock s).1
take_step (deletes account id) s = (delete_character account id s).1

abbrev pub take_steps : List Step → Store → Store
take_steps [] s = s
take_steps (u ∷ us) s = take_steps us (take_step u s)

Slotted-same : (s t : Store) → t.characters ≡ s.characters → Slotted s → Slotted t
Slotted-same s t e h i j owner r q at_i at_j =
    h i j owner r q (ap (lookup i) (sym e) ∙ at_i) (ap (lookup j) (sym e) ∙ at_j)

-- A login leaves the characters as they are.
login-characters :
    (wallet : String) (now : ℕ) (s : Store)
    → (upsert_account_by_wallet wallet now s).1.characters ≡ s.characters
login-characters wallet now s = elim (Option-cases (lookup wallet s.by_wallet)) [
  | inl e ↦ ap (λ x. x.1.characters) (upsert-unknown wallet now s e) ∙ unfold open_account in refl
  | inr (id, e) ↦ elim (Option-cases (lookup id s.accounts)) [
    | inl f ↦ ap (λ x. x.1.characters) (upsert-dangling wallet now id s e f)
    | inr (row, f) ↦ ap (λ x. x.1.characters) (upsert-known wallet now id row s e f)
  ]
]

create_character-Slotted :
    (account : ℕ) (name : String) (appearance : Option (Dict String String)) (clock : ℕ) (s : Store)
    → Slotted s
    → Slotted (create_character account name appearance clock s).1
unfolding create_character
create_character-Slotted account name appearance clock s h =
    elim (Option-cases (lookup account s.accounts)) [
      | inl e ↦ rw (create_character, e) h
      | inr (owner, e) ↦ elim (Option-cases (first_free account (0 ∷ 1 ∷ 2 ∷ []) s.characters)) [
        | inl f ↦ rw (create_character, e, f) h
        | inr (slot, f) ↦
            let k =
              first_free-some account slot (0 ∷ 1 ∷ 2 ∷ []) s.characters
                (omega arith, (omega arith, (omega arith, tt))) f in
            rw (create_character, e, f)
              (place_character-Slotted account name appearance clock slot s k.0 k.1 h)
      ]
    ]

deleted-Slotted :
    (id : ℕ) (row : Character) (s : Store) (states : Dict ℕ CharacterState)
    → Slotted s
    → Slotted (record s {
      characters = insert id (deleted_row row) s.characters;
      character_states = states;
    })
deleted-Slotted id row s states h i j owner r q at_i at_j own_r own_q =
    h i j owner r q (before i r at_i own_r) (before j q at_j own_q) own_r own_q
  where
    gone : (b : Bool) → (b && false) ≡ true → ⊥
    gone true p = cc p
    gone false p = cc p

    before :
        (k : ℕ) (z : Character)
        → lookup k (insert id (deleted_row row) s.characters) ≡ some z
        → owned owner z ≡ true
        → lookup k s.characters ≡ some z
    before k z at_k own = elim (insert-cases k id (deleted_row row) z s.characters at_k) [
      | inl (e, x) ↦ absurd (gone (row.account_id == owner) (ap (owned owner) x ∙ own))
      | inr (e, there) ↦ there
    ]

delete_character-Slotted :
    (account id : ℕ) (s : Store) → Slotted s → Slotted (delete_character account id s).1
unfolding delete_character
delete_character-Slotted account id s h = elim (Option-cases (own_character account id s)) [
  | inl e ↦ rw (delete_character, e) h
  | inr (row, e) ↦
      rw (delete_character, e) (deleted-Slotted id row s (erase id s.character_states) h)
]

take_step-Slotted : (u : Step) (s : Store) → Slotted s → Slotted (take_step u s)
take_step-Slotted (login wallet now) s h =
    Slotted-same s (upsert_account_by_wallet wallet now s).1 (login-characters wallet now s) h
take_step-Slotted (creates account name appearance clock) s h =
    create_character-Slotted account name appearance clock s h
take_step-Slotted (deletes account id) s h = delete_character-Slotted account id s h

take_steps-Slotted_from : (us : List Step) (s : Store) → Slotted s → Slotted (take_steps us s)
take_steps-Slotted_from [] s h = h
take_steps-Slotted_from (u ∷ us) s h =
    take_steps-Slotted_from us (take_step u s) (take_step-Slotted u s h)

-- Whatever logins, creations and deletions happen from the empty store, the characters of an account
-- that are not deleted have slots below three, and two of them never the same slot: an account never
-- has more than three.
pub take_steps-Slotted : (us : List Step) → Slotted (take_steps us new)
unfolding new
take_steps-Slotted us = take_steps-Slotted_from us new (λ i j owner r q at_i. absurd (cc at_i))
