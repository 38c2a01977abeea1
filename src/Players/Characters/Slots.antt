-- ===== src/Players/Characters/Slots.antt =====
-- No account has more than three characters.
use mathlib.Core.Option.{some-injective}
use aeon_backend.Base.{
  All, Bool-cases, List, [], ap, arith, false, if◌then◌else◌, inl, inr, not, some, sym, true, ℕ,
  ◌&&◌, ◌<◌, ◌==◌, ◌∙◌, ◌∷◌, ◌≡◌, ◌≢◌, nat_key, Bool, Option, String, subst, refl,
}
use aeon_backend.Players.Characters.{first_free, owned, slot_used, new_character, place_character}
use aeon_backend.Base.Dict.{Dict, lookup, insert-cases}
use aeon_backend.Store.{Character, Store, next_of}

-- A slot that the loop finds free is no slot of a character of the account.
slot_used-free :
    (account slot : ℕ) (m : Dict ℕ Character) (id : ℕ) (row : Character)
    → slot_used account slot m ≡ false
    → lookup id m ≡ some row
    → owned account row ≡ true
    → row.slot_index ≢ slot
unfolding slot_used
slot_used-free account slot [] id row free there own = cc
slot_used-free account slot ((j, x) ∷ m) id row free there own = elim (Bool-cases (j == id)) [
  | inl a ↦ λ e. taken x (some-injective x row (rw a at there)) e free
  | inr a ↦ slot_used-free account slot m id row (rest free) (rw a at there) own
]
  where
    both : (a b c : Bool) → (a && b) ≡ true → c ≡ true → (a && b && c) ≡ true
    both a b c p q = ground arith

    clash : (c r : Bool) → c ≡ true → (if c then true else r) ≡ false → ⊥
    clash c r p h = ground arith

    rest :
        (if (x.account_id == account) && not x.deleted && (x.slot_index == slot)
            then true
            else slot_used account slot m)
          ≡ false
        → slot_used account slot m ≡ false
    rest h =
        elim (Bool-cases ((x.account_id == account) && not x.deleted && (x.slot_index == slot))) [
          | inl a ↦ absurd (cc (rw a at h))
          | inr a ↦ rw a at h
        ]

    taken :
        (y : Character)
        → y ≡ row
        → row.slot_index ≡ slot
        → (if (y.account_id == account) && not y.deleted && (y.slot_index == slot)
            then true
            else slot_used account slot m)
          ≡ false
        → ⊥
    taken y e f h =
        clash _ (slot_used account slot m)
          (both (y.account_id == account) (not y.deleted) (y.slot_index == slot)
            (ap (owned account) e ∙ own)
            ((nat_key.agrees y.slot_index slot).1 (ap (λ z. z.slot_index) e ∙ f)))
          h

-- The slot found is one of the candidates, and free.
pub first_free-some :
    (account slot : ℕ) (slots : List ℕ) (m : Dict ℕ Character)
    → All (λ x. x < 3) slots
    → first_free account slots m ≡ some slot
    → (slot < 3) × (slot_used account slot m ≡ false)
unfolding first_free
first_free-some account slot [] m h e = cc
first_free-some account slot (x ∷ slots) m h e = elim (Bool-cases (slot_used account x m)) [
  | inl a ↦ first_free-some account slot slots m h.1 (rw a at e)
  | inr a ↦ same (some-injective x slot (rw a at e)) a
]
  where
    same :
        x ≡ slot → slot_used account x m ≡ false → (slot < 3) × (slot_used account slot m ≡ false)
    same p a = (omega (arith, h.0), ap (λ y. slot_used account y m) (sym p) ∙ a)

-- The characters of each account that are not deleted have different slots, all below three.
abbrev pub Slotted : Store → Type 0
Slotted s =
    (i j account : ℕ) (r q : Character)
    → lookup i s.characters ≡ some r
    → lookup j s.characters ≡ some q
    → owned account r ≡ true
    → owned account q ≡ true
    → (r.slot_index < 3) × (r.slot_index ≡ q.slot_index → i ≡ j)

pub place_character-Slotted :
    (account : ℕ) (name : String) (appearance : Option (Dict String String)) (clock slot : ℕ)
    (s : Store)
    → slot < 3
    → slot_used account slot s.characters ≡ false
    → Slotted s
    → Slotted (place_character account name appearance clock slot s).1
unfolding place_character
place_character-Slotted account name appearance clock slot s small free h i j owner r q at_i at_j
      own_r own_q =
    elim (insert-cases i (next_of s) row r s.characters at_i) [
      | inl (e, x) ↦ (
        subst (λ n. n < 3) (ap (λ z. z.slot_index) x) small,
        elim (insert-cases j (next_of s) row q s.characters at_j) [
          | inl (f, y) ↦ λ same. sym e ∙ f
          | inr (f, there) ↦ λ same. absurd (
              slot_used-free account slot s.characters j q free there
                (ap (λ a. owned a q) (mine r owner x own_r) ∙ own_q)
                (sym same ∙ sym (ap (λ z. z.slot_index) x)))
        ],
      )
      | inr (e, at_old) ↦ elim (insert-cases j (next_of s) row q s.characters at_j) [
        | inl (f, y) ↦ (
          (h i i owner r r at_old at_old own_r own_r).0,
          λ same. absurd (
              slot_used-free account slot s.characters i r free at_old
                (ap (λ a. owned a r) (mine q owner y own_q) ∙ own_r)
                (same ∙ sym (ap (λ z. z.slot_index) y))),
        )
        | inr (f, there) ↦ h i j owner r q at_old there own_r own_q
      ]
    ]
  where
    row : Character
    row = new_character (next_of s) account name slot appearance clock

    mine : (z : Character) (owner : ℕ) → row ≡ z → owned owner z ≡ true → account ≡ owner
    mine z owner x own =
        (nat_key.agrees account owner).0 (first (account == owner) (ap (owned owner) x ∙ own))
      where
        first : (b : Bool) → (b && true) ≡ true → b ≡ true
        first true p = refl
        first false p = p
