-- ===== src/Base/Rows.antt =====
-- The rows of a map as a list: distinct keys, sums of a weight, and what a reordering keeps.
use Prim.Native.Nat.{ℕ, zero, suc}
use mathlib.Core.Path.{◌≡◌, refl, sym, subst, ◌∙◌, ap}
use mathlib.Core.Logic.{◌≢◌, inl, inr}
use mathlib.Core.Bool.{Bool, true, false}
use mathlib.Core.Option.{none, some, some-injective}
use mathlib.Core.List.{List, [], ◌∷◌, Permᴰ}
use native.Mathlib.Omega.{arith}
use aeon_backend.Base.Tests.{Eq, ◌==◌, if◌then◌else◌, Bool-cases, ==_refl, ==-false_of_ne, leb}
use aeon_backend.Base.Lists.{All, take, insert_by, sort_by}
use aeon_backend.Base.Int.{ℤ, pos, ◌+ℤ◌, ◌≤ℤ◌, int_laws}
use aeon_backend.Base.Dict.{Dict, lookup, insert, lookup-insert_ne}

-- Go's `range` over a map keeps the rows for which a test holds.
unfoldable pub select {ℓ} : {A : Type ℓ} → (A → Bool) → List A → List A
select p [] = []
select p (x ∷ xs) = if p x then x ∷ select p xs else select p xs

module _ {ℓ κ} {A : Type ℓ} (P : A → Type κ) where
  pub All-perm : {xs ys : List A} → Permᴰ xs ys → All P xs → All P ys
  All-perm Permᴰ.nil h = h
  All-perm (Permᴰ.cons e p) h = (subst P e h.0, All-perm p h.1)
  All-perm (Permᴰ.swap e f) h = (subst P f h.1.0, (subst P e h.0, h.1.1))
  All-perm (Permᴰ.trans p q) h = All-perm q (All-perm p h)

  pub All-map {μ} : (Q : A → Type μ) → ((x : A) → P x → Q x) → (xs : List A) → All P xs → All Q xs
  All-map Q f [] h = tt
  All-map Q f (x ∷ xs) h = (f x h.0, All-map Q f xs h.1)

  pub All-take : (n : ℕ) (xs : List A) → All P xs → All P (take n xs)
  All-take zero xs h = tt
  All-take (suc n) [] h = tt
  All-take (suc n) (x ∷ xs) h = (h.0, All-take n xs h.1)

  pub All-insert_by :
      (key : A → ℕ) (x : A) (xs : List A) → P x → All P xs → All P (insert_by key x xs)
  All-insert_by key x [] p h = (p, tt)
  All-insert_by key x (y ∷ ys) p h = elim (Bool-cases (leb (key x) (key y))) [
    | inl t ↦ rw t (p, (h.0, h.1))
    | inr f ↦ rw f (h.0, All-insert_by key x ys p h.1)
  ]

  pub All-sort_by : (key : A → ℕ) (xs : List A) → All P xs → All P (sort_by key xs)
  unfolding sort_by
  All-sort_by key [] h = tt
  All-sort_by key (x ∷ xs) h = All-insert_by key x (sort_by key xs) h.0 (All-sort_by key xs h.1)

  pub All-select : (p : A → Bool) (xs : List A) → All P xs → All P (select p xs)
  unfolding select
  All-select p [] h = tt
  All-select p (x ∷ xs) h = elim (Bool-cases (p x)) [
    | inl t ↦ rw t (h.0, All-select p xs h.1)
    | inr f ↦ rw f (All-select p xs h.1)
  ]

-- What passes a test satisfies it.
pub select-All {ℓ} : {A : Type ℓ} (p : A → Bool) (xs : List A) → All (λ x. p x ≡ true) (select p xs)
unfolding select
select-All p [] = tt
select-All p (x ∷ xs) = elim (Bool-cases (p x)) [
  | inl t ↦ rw t (t, select-All p xs)
  | inr f ↦ rw f (select-All p xs)
]

module _ {ℓ κ} {K : Type ℓ} {V : Type κ} where
  abbrev pub Absent : K → Dict K V → Type ℓ
  Absent k m = All (λ e. e.0 ≢ k) m

  -- No key is listed twice.
  abbrev pub Distinct : Dict K V → Type ℓ
  Distinct [] = Unit
  Distinct ((k, v) ∷ m) = Absent k m × Distinct m

  pub Distinct-perm : {xs ys : Dict K V} → Permᴰ xs ys → Distinct xs → Distinct ys
  Distinct-perm Permᴰ.nil h = h
  Distinct-perm (Permᴰ.cons {l₂ = ys} e p) h =
      (subst (λ r. Absent r.0 ys) e (All-perm _ p h.0), Distinct-perm p h.1)
  Distinct-perm (Permᴰ.swap {l = l} e f) h = (
    (
      λ q. h.0.0 (ap (λ r. r.0) f ∙ sym q ∙ sym (ap (λ r. r.0) e)),
      subst (λ r. Absent r.0 l) f h.1.0,
    ),
    (subst (λ r. Absent r.0 l) e h.0.1, h.1.1),
  )
  Distinct-perm (Permᴰ.trans p q) h = Distinct-perm q (Distinct-perm p h)

  pub Distinct-take : (n : ℕ) (xs : Dict K V) → Distinct xs → Distinct (take n xs)
  Distinct-take zero xs h = tt
  Distinct-take (suc n) [] h = tt
  Distinct-take (suc n) (x ∷ xs) h = (All-take _ n xs h.0, Distinct-take n xs h.1)

  pub Distinct-select : (p : K × V → Bool) (xs : Dict K V) → Distinct xs → Distinct (select p xs)
  unfolding select
  Distinct-select p [] h = tt
  Distinct-select p (x ∷ xs) h = elim (Bool-cases (p x)) [
    | inl t ↦ rw t (All-select _ p xs h.0, Distinct-select p xs h.1)
    | inr f ↦ rw f (Distinct-select p xs h.1)
  ]

  pub Distinct-insert_by :
      (key : K × V → ℕ) (x : K × V) (xs : Dict K V)
      → Absent x.0 xs
      → Distinct xs
      → Distinct (insert_by key x xs)
  Distinct-insert_by key x [] p h = (tt, tt)
  Distinct-insert_by key x (y ∷ ys) p h = elim (Bool-cases (leb (key x) (key y))) [
    | inl t ↦ rw t (p, (h.0, h.1))
    | inr f ↦
        rw f (All-insert_by _ key x ys (λ e. p.0 (sym e)) h.0, Distinct-insert_by key x ys p.1 h.1)
  ]

  pub Distinct-sort_by : (key : K × V → ℕ) (xs : Dict K V) → Distinct xs → Distinct (sort_by key xs)
  unfolding sort_by
  Distinct-sort_by key [] h = tt
  Distinct-sort_by key (x ∷ xs) h =
      Distinct-insert_by key x (sort_by key xs) (All-sort_by _ key xs h.0)
        (Distinct-sort_by key xs h.1)

module _ {ℓ κ} {K : Type ℓ} {V : Type κ} ⦃e : Eq K⦄ where
  -- Each row is what the map holds under its key.
  abbrev pub Holds : Dict K V → Dict K V → Type κ
  Holds m rows = All (λ r. lookup r.0 m ≡ some r.1) rows

  pub lookup-Absent : (k : K) (m : Dict K V) → Absent k m → lookup k m ≡ none
  lookup-Absent k [] h = refl
  lookup-Absent k ((j, v) ∷ m) h = rw (==-false_of_ne j k h.0) (lookup-Absent k m h.1)

  pub Holds-insert :
      (k : K) (v : V) (m rows : Dict K V) → Absent k rows → Holds m rows → Holds (insert k v m) rows
  Holds-insert k v m [] a h = tt
  Holds-insert k v m (r ∷ rows) a h =
      (lookup-insert_ne r.0 k v m (λ p. a.0 (sym p)) ∙ h.0, Holds-insert k v m rows a.1 h.1)

  Holds-cons :
      (k : K) (v : V) (m rows : Dict K V) → Absent k rows → Holds m rows → Holds ((k, v) ∷ m) rows
  Holds-cons k v m [] a h = tt
  Holds-cons k v m (r ∷ rows) a h =
      (rw (==-false_of_ne k r.0 (λ p. a.0 (sym p))) h.0, Holds-cons k v m rows a.1 h.1)

  pub Holds-self : (m : Dict K V) → Distinct m → Holds m m
  Holds-self [] h = tt
  Holds-self ((k, v) ∷ m) h = (rw (==_refl k), Holds-cons k v m m h.0 (Holds-self m h.1))

  pub Absent-insert :
      (j k : K) (v : V) (m : Dict K V) → k ≢ j → Absent j m → Absent j (insert k v m)
  Absent-insert j k v [] n h = (n, tt)
  Absent-insert j k v ((i, w) ∷ m) n h = elim (Bool-cases (i == k)) [
    | inl t ↦ rw t (n, h.1)
    | inr f ↦ rw f (h.0, Absent-insert j k v m n h.1)
  ]

  pub Distinct-insert : (k : K) (v : V) (m : Dict K V) → Distinct m → Distinct (insert k v m)
  Distinct-insert k v [] h = (tt, tt)
  Distinct-insert k v ((i, w) ∷ m) h = elim (Bool-cases (i == k)) [
    | inl t ↦ rw t (subst (λ x. Absent x m) ((e.agrees i k).0 t) h.0, h.1)
    | inr f ↦ rw f (Absent-insert i k v m (λ p. other p f) h.0, Distinct-insert k v m h.1)
  ]
    where
      other : k ≡ i → (i == k) ≡ false → ⊥
      other p f = cc ((e.agrees i k).1 (sym p))

  pub All-insert {μ} :
      (P : K × V → Type μ) (k : K) (v : V) (m : Dict K V)
      → P (k, v)
      → All P m
      → All P (insert k v m)
  All-insert P k v [] p h = (p, tt)
  All-insert P k v ((i, w) ∷ m) p h = elim (Bool-cases (i == k)) [
    | inl t ↦ rw t (p, h.1)
    | inr f ↦ rw f (h.0, All-insert P k v m p h.1)
  ]

  -- What holds of every row holds of one that the map has.
  pub All-lookup {μ} :
      (P : K × V → Type μ) (k : K) (v : V) (m : Dict K V) → All P m → lookup k m ≡ some v → P (k, v)
  All-lookup P k v [] h found = cc
  All-lookup P k v ((i, w) ∷ m) h found = elim (Bool-cases (i == k)) [
    | inl t ↦ subst P (λ j. ((e.agrees i k).0 t j, some-injective w v (unhead t found) j)) h.0
    | inr f ↦ All-lookup P k v m h.1 (rw f at found)
  ]
    where
      unhead : (i == k) ≡ true → (if i == k then some w else lookup k m) ≡ some v → some w ≡ some v
      unhead t p = rw t at p

-- The sum of a weight over the rows.
module _ {ℓ κ} {K : Type ℓ} {V : Type κ} (w : V → ℤ) where
  abbrev pub sum_by : Dict K V → ℤ
  sum_by [] = pos 0
  sum_by ((k, v) ∷ m) = w v +ℤ sum_by m

module _ {ℓ κ} {K : Type ℓ} {V : Type κ} ⦃e : Eq K⦄ (w : V → ℤ) where
  pub sum_by-insert :
      (k : K) (v old : V) (m : Dict K V)
      → lookup k m ≡ some old
      → sum_by w (insert k v m) +ℤ w old ≡ sum_by w m +ℤ w v
  sum_by-insert k v old [] h = cc
  sum_by-insert k v old ((i, x) ∷ m) h = grind (int_laws, sum_by-insert k v old m)

  pub sum_by-insert_new :
      (k : K) (v : V) (m : Dict K V)
      → lookup k m ≡ none
      → sum_by w (insert k v m) ≡ sum_by w m +ℤ w v
  sum_by-insert_new k v [] h = omega int_laws
  sum_by-insert_new k v ((i, x) ∷ m) h = grind (int_laws, sum_by-insert_new k v m)

module _ {ℓ κ} {K : Type ℓ} {V : Type κ} ⦃e : Eq K⦄ (w : V → ℤ) where
  pub sum_by_nonneg : (m : Dict K V) → All (λ r. pos 0 ≤ℤ w r.1) m → pos 0 ≤ℤ sum_by w m
  sum_by_nonneg [] h = omega arith
  sum_by_nonneg ((k, v) ∷ m) h = omega (int_laws, h.0, sum_by_nonneg m h.1)

  -- No row weighs more than all of them.
  pub le-sum_by :
      (k : K) (v : V) (m : Dict K V)
      → All (λ r. pos 0 ≤ℤ w r.1) m
      → lookup k m ≡ some v
      → w v ≤ℤ sum_by w m
  le-sum_by k v [] n h = cc
  le-sum_by k v ((i, x) ∷ m) n h = grind (int_laws, le-sum_by k v m n.1, n.0, sum_by_nonneg m n.1)

module _ {ℓ κ} {K : Type ℓ} {V : Type κ} (w : V → ℤ) where
  pub sum_by-perm : {xs ys : Dict K V} → Permᴰ xs ys → sum_by w xs ≡ sum_by w ys
  sum_by-perm Permᴰ.nil = refl
  sum_by-perm (Permᴰ.cons e p) = grind (int_laws, ap (λ r. w r.1) e, sum_by-perm p)
  sum_by-perm (Permᴰ.swap e f) = grind (int_laws, ap (λ r. w r.1) e, ap (λ r. w r.1) f)
  sum_by-perm (Permᴰ.trans p q) = sum_by-perm p ∙ sum_by-perm q
