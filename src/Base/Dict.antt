-- ===== src/Base/Dict.antt =====
-- A Go map as an association list: the first entry of a key counts, and a write replaces it in
-- place. The order of the entries is not the order in which `range` visits a map; that order is
-- an argument of the functions that loop over one.
use mathlib.Core.Path.{◌≡◌, refl, ap, sym, subst, ◌∙◌}
use mathlib.Core.Logic.{◌≢◌, inl, inr}
use mathlib.Core.Bool.{Bool, true, false}
use mathlib.Core.Option.{Option, none, some, some-injective}
use mathlib.Core.Option
use mathlib.Core.List.{List, [], ◌∷◌}
use aeon_backend.Base.Tests.{
  Eq, ◌==◌, if◌then◌else◌, Bool-cases, Option-cases, ==_refl, ==-false_of_ne,
}
use aeon_backend.Base.{◌⊎◌}

abbrev pub Dict {ℓ κ} : Type ℓ → Type κ → Type (ℓ ⊔ κ)
Dict K V = List (K × V)

module _ {ℓ κ} {K : Type ℓ} {V : Type κ} ⦃e : Eq K⦄ where
  abbrev pub lookup : K → Dict K V → Option V
  lookup k [] = none
  lookup k ((j, v) ∷ m) = if j == k then some v else lookup k m

  abbrev pub insert : K → V → Dict K V → Dict K V
  insert k v [] = (k, v) ∷ []
  insert k v ((j, w) ∷ m) = if j == k then (k, v) ∷ m else (j, w) ∷ insert k v m

  -- `delete(m, k)`
  abbrev pub erase : K → Dict K V → Dict K V
  erase k [] = []
  erase k ((j, v) ∷ m) = if j == k then erase k m else (j, v) ∷ erase k m

  pub lookup-insert_self : (k : K) (v : V) (m : Dict K V) → lookup k (insert k v m) ≡ some v
  lookup-insert_self k v [] = rw (==_refl k)
  lookup-insert_self k v ((j, w) ∷ m) = elim (Bool-cases (j == k)) [
    | inl same ↦ rw (same, ==_refl k)
    | inr other ↦ rw (other, other) (lookup-insert_self k v m)
  ]

  pub lookup-insert_ne :
      (j k : K) (v : V) (m : Dict K V) → k ≢ j → lookup j (insert k v m) ≡ lookup j m
  lookup-insert_ne j k v [] h = rw (==-false_of_ne k j h)
  lookup-insert_ne j k v ((i, w) ∷ m) h = elim (Bool-cases (i == k)) [
    | inl same ↦ rw same (rw (==-false_of_ne k j h, ==-false_of_ne i j (λ p. h (sub same p))) refl)
    | inr other ↦ rw other (branch (i == j) (lookup-insert_ne j k v m h))
  ]
    where
      sub : (i == k) ≡ true → i ≡ j → k ≡ j
      sub s p = cc ((e.agrees i k).0 s)

      branch :
          (b : Bool)
          → lookup j (insert k v m) ≡ lookup j m
          → (if b then some w else lookup j (insert k v m)) ≡ (if b then some w else lookup j m)
      branch b p = ap (λ r. if b then some w else r) p

  pub lookup-insert :
      (j k : K) (v : V) (m : Dict K V)
      → lookup j (insert k v m) ≡ (if k == j then some v else lookup j m)
  lookup-insert j k v m = elim (Bool-cases (k == j)) [
    | inl same ↦ rw (same, (e.agrees k j).0 same) (lookup-insert_self j v m)
    | inr other ↦ rw other (lookup-insert_ne j k v m (λ p. differ p other))
  ]
    where
      differ : k ≡ j → (k == j) ≡ false → ⊥
      differ p o = cc ((e.agrees k j).1 p)

-- `for _, row := range m { ... }` that writes through each row's pointer.
abbrev pub map_values {ℓ κ μ} :
    {K : Type ℓ} {V : Type κ} {W : Type μ} → (V → W) → Dict K V → Dict K W
map_values f [] = []
map_values f ((k, v) ∷ m) = (k, f v) ∷ map_values f m

module _ {ℓ κ} {K : Type ℓ} {V : Type κ} ⦃e : Eq K⦄ where
  pub lookup-map_values :
      (f : V → V) (k : K) (m : Dict K V) → lookup k (map_values f m) ≡ Option.map f (lookup k m)
  lookup-map_values f k [] = refl
  lookup-map_values f k ((j, v) ∷ m) = elim (Bool-cases (j == k)) [
    | inl same ↦ rw same refl
    | inr other ↦ rw other (lookup-map_values f k m)
  ]

  -- A write through the pointer that the map holds under a key, if it holds one.
  abbrev pub update_at : K → (V → V) → Dict K V → Dict K V
  update_at k f m = elim (lookup k m) [ none ↦ m | some v ↦ insert k (f v) m ]

  pub update_at-missing :
      (k : K) (f : V → V) (m : Dict K V) → lookup k m ≡ none → update_at k f m ≡ m
  update_at-missing k f m gone = rw (update_at, gone) refl

  pub update_at-found :
      (k : K) (f : V → V) (v : V) (m : Dict K V)
      → lookup k m ≡ some v
      → update_at k f m ≡ insert k (f v) m
  update_at-found k f v m found = rw (update_at, found) refl

  -- What holds of a key's row holds after a write, if it holds of what is written.
  pub insert-keeps {μ} :
      (P : V → Type μ) (j k : K) (v : V) (m : Dict K V)
      → (k ≡ j → P v)
      → ((row : V) → lookup j m ≡ some row → P row)
      → (row : V) → lookup j (insert k v m) ≡ some row
      → P row
  insert-keeps P j k v m fresh old row h = elim (Bool-cases (k == j)) [
    | inl same ↦
        subst P (some-injective v row (sym (lookup-insert j k v m ∙ rw same refl) ∙ h))
          (fresh ((e.agrees k j).0 same))
    | inr other ↦ old row (sym (lookup-insert j k v m ∙ rw other refl) ∙ h)
  ]

  pub update_at-keeps {μ} :
      (P : V → Type μ) (j k : K) (f : V → V) (m : Dict K V)
      → ((v : V) → lookup j m ≡ some v → P v → P (f v))
      → ((row : V) → lookup j m ≡ some row → P row)
      → (row : V) → lookup j (update_at k f m) ≡ some row
      → P row
  update_at-keeps P j k f m fresh old row h = elim (Option-cases (lookup k m)) [
    | inl gone ↦ old row (sym (ap (lookup j) (update_at-missing k f m gone)) ∙ h)
    | inr (v, found) ↦
        insert-keeps P j k (f v) m
          (λ same.
            let there = ap (λ i. lookup i m) (sym same) ∙ found in fresh v there (old v there))
          old row (sym (ap (lookup j) (update_at-found k f v m found)) ∙ h)
  ]

  pub map_values-keeps {μ} :
      (P : V → Type μ) (f : V → V) (k : K) (m : Dict K V)
      → ((v : V) → lookup k m ≡ some v → P (f v))
      → (row : V) → lookup k (map_values f m) ≡ some row
      → P row
  map_values-keeps P f k m fresh row h = elim (Option-cases (lookup k m)) [
    | inl gone ↦ cc (sym (lookup-map_values f k m ∙ ap (Option.map f) gone) ∙ h)
    | inr (v, found) ↦
        subst P
          (some-injective (f v) row (sym (lookup-map_values f k m ∙ ap (Option.map f) found) ∙ h))
          (fresh v found)
  ]

  -- What is read where the write went is what was written.
  pub update_at-self {μ} :
      (P : V → Type μ) (k : K) (f : V → V) (m : Dict K V)
      → ((v : V) → P (f v))
      → (row : V) → lookup k (update_at k f m) ≡ some row
      → P row
  update_at-self P k f m fresh row h = elim (Option-cases (lookup k m)) [
    | inl gone ↦ absurd (nothing gone h)
    | inr (v, found) ↦
        subst P
          (some-injective (f v) row (
            sym (lookup-insert_self k (f v) m)
            ∙ (sym (ap (lookup k) (update_at-found k f v m found)) ∙ h)))
          (fresh v)
  ]
    where
      nothing : lookup k m ≡ none → lookup k (update_at k f m) ≡ some row → ⊥
      nothing gone h = cc (sym gone ∙ (sym (ap (lookup k) (update_at-missing k f m gone)) ∙ h))

  -- What is read behind a write is what was written there, or was there before.
  pub insert-cases :
      (j k : K) (v row : V) (m : Dict K V)
      → lookup j (insert k v m) ≡ some row
      → ((k ≡ j) × (v ≡ row)) ⊎ ((k ≢ j) × (lookup j m ≡ some row))
  insert-cases j k v row m h = elim (Bool-cases (k == j)) [
    | inl same ↦ inl (
      (e.agrees k j).0 same,
      some-injective v row (sym (lookup-insert j k v m ∙ rw same refl) ∙ h),
    )
    | inr other ↦ inr (differ other, sym (lookup-insert j k v m ∙ rw other refl) ∙ h)
  ]
    where
      differ : (k == j) ≡ false → k ≢ j
      differ other p = cc ((e.agrees k j).1 p)

  pub lookup-update_at_ne :
      (j k : K) (f : V → V) (m : Dict K V) → k ≢ j → lookup j (update_at k f m) ≡ lookup j m
  lookup-update_at_ne j k f m h = elim (Option-cases (lookup k m)) [
    | inl gone ↦ ap (lookup j) (update_at-missing k f m gone)
    | inr (v, found) ↦
        ap (lookup j) (update_at-found k f v m found) ∙ lookup-insert_ne j k (f v) m h
  ]
