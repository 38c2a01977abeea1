-- ===== src/Services/Distinctness.antt =====
-- No two service identities share a public key, and no two active game servers a subject.
pub mod History
use mathlib.Core.Option.{some-injective}
use aeon_backend.Base.{
  ℕ, Bool, Bool-cases, [], ◌∷◌, String, ◌==◌, ◌||◌, ◌&&◌, ◌≡◌, ◌⊎◌, refl, sym, ◌∙◌, inl, inr, some,
  none, Option, All, Error, Result, err, ok, text_key, true, false, subst, ltb, Permᴰ,
}
use aeon_backend.Base.Dict.{Dict, lookup, insert, lookup-insert}
use aeon_backend.Base.Rows.{All-perm, All-lookup}
use aeon_backend.Base.Text.{trim_space}
use aeon_backend.Store.{Store, ServiceIdentity, new}
use aeon_backend.Services.Inputs.{Folding, CreateServiceIdentityInput, normalize, rune_count}
use aeon_backend.Services.{
  clash, same_key, same_subject, new_identity, create_unless, create_new, create_checked,
  create_service_identity, disable_row, disable_service_identity, disabled_identity, put_identity,
  identity_key,
}
use aeon_backend.Services.Nonces.{consume_service_nonce, take_nonce}

-- Two identities that must not both be there: they share a public key, or they are active game
-- servers with the same subject.
pub data Clashes (a b : ServiceIdentity) : Type 0 where
  one_key : a.public_key ≡ b.public_key → Clashes a b
  one_subject :
      a.kind ≡ "GAME_SERVER"
      → b.kind ≡ "GAME_SERVER"
      → a.subject_id ≡ b.subject_id
      → a.status ≡ "ACTIVE"
      → b.status ≡ "ACTIVE"
      → Clashes a b

abbrev pub Apart : Dict String ServiceIdentity → Type 0
Apart m =
    (i j : String) (a b : ServiceIdentity)
    → lookup i m ≡ some a
    → lookup j m ≡ some b
    → Clashes a b
    → i ≡ j

Clashes-sym : (a b : ServiceIdentity) → Clashes a b → Clashes b a
Clashes-sym a b (one_key e) = one_key (sym e)
Clashes-sym a b (one_subject k l s x y) = one_subject l k (sym s) y x

-- What a lookup behind a write finds.
abbrev Found :
    String → ServiceIdentity → Dict String ServiceIdentity → String → ServiceIdentity → Type 0
Found k r m i a = ((k ≡ i) × (r ≡ a)) ⊎ (lookup i m ≡ some a)

found :
    (k : String) (r : ServiceIdentity) (m : Dict String ServiceIdentity) (i : String)
    (a : ServiceIdentity)
    → lookup i (insert k r m) ≡ some a
    → Found k r m i a
found k r m i a h = elim (Bool-cases (k == i)) [
  | inl same ↦ inl (
    (text_key.agrees k i).0 same,
    some-injective r a (sym (lookup-insert i k r m ∙ rw same refl) ∙ h),
  )
  | inr other ↦ inr (sym (lookup-insert i k r m ∙ rw other refl) ∙ h)
]

-- A write of a row that clashes with no row under another key.
pub insert-Apart :
    (k : String) (r : ServiceIdentity) (m : Dict String ServiceIdentity)
    → ((j : String) (b : ServiceIdentity) → lookup j m ≡ some b → Clashes r b → k ≡ j)
    → Apart m
    → Apart (insert k r m)
insert-Apart k r m fresh apart i j a b at_i at_j clashes =
    both (found k r m i a at_i) (found k r m j b at_j)
  where
    both : Found k r m i a → Found k r m j b → i ≡ j
    both (inl (p, q)) (inl (p', q')) = sym p ∙ p'
    both (inl (p, q)) (inr there) =
        sym p ∙ fresh j b there (subst (λ x. Clashes x b) (sym q) clashes)
    both (inr there) (inl (p, q)) =
        sym (sym p ∙ fresh i a there (subst (λ x. Clashes x a) (sym q) (Clashes-sym a b clashes)))
    both (inr here) (inr there) = apart i j a b here there clashes

-- A loop that finds no error has met no row that clashes with the new one.
pub clash-none :
    (input : CreateServiceIdentityInput) (clock : ℕ) (rows : Dict String ServiceIdentity)
    → clash input rows ≡ none
    → All (λ r. Clashes (new_identity input clock) r.1 → ⊥) rows
unfolding clash
clash-none input clock [] h = tt
clash-none input clock ((id, row) ∷ rows) h = elim (Bool-cases (same_key input row)) [
  | inl t ↦ cc (rw t at h)
  | inr f ↦ elim (Bool-cases (same_subject input row)) [
    | inl t ↦ cc (rw (f, t) at h)
    | inr g ↦ (differs f g, clash-none input clock rows (rw (f, g) at h))
  ]
]
  where
    equal : (a b : String) → a ≡ b → (a == b) ≡ true
    equal a b e = (text_key.agrees a b).1 e

    all_four :
        (a b c d : Bool) → a ≡ true → b ≡ true → c ≡ true → d ≡ true → (a && b && c && d) ≡ true
    all_four a b c d p q r s = rw (p, q, r, s) refl

    differs :
        same_key input row ≡ false
        → same_subject input row ≡ false
        → Clashes (new_identity input clock) row
        → ⊥
    differs f g (one_key e) = cc (equal row.public_key input.public_key (sym e), f)
    differs f g (one_subject k l s x y) = cc (
      all_four (input.kind == "GAME_SERVER") (row.kind == input.kind)
          (row.subject_id == input.subject_id) (row.status == "ACTIVE")
          (equal input.kind "GAME_SERVER" k) (equal row.kind input.kind (l ∙ sym k))
          (equal row.subject_id input.subject_id (sym s)) (equal row.status "ACTIVE" y),
      g,
    )

pub put_identity-Apart :
    (id : String) (row : ServiceIdentity) (admin action reason : String) (clock : ℕ) (s : Store)
    → Apart (insert id row s.service_identities)
    → Apart (put_identity id row admin action reason clock s).service_identities
unfolding put_identity
put_identity-Apart id row admin action reason clock s h = h
