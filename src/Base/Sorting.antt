-- ===== src/Base/Sorting.antt =====
-- Go's `sort.Strings`, `sort.Ints` and `sort.Slice` of distinct elements: insertion by a Boolean
-- order, and the order of texts.
use aeon_backend.Base.{
  ℕ, All, Bool, List, [], ◌∷◌, if◌then◌else◌, ltb, nat_eq, Bool-cases, inl, inr, true, false,
  String, arith,
}
use aeon_backend.Base.Text.{codes}
use aeon_backend.Base.Int.{ℤ, ltb_ℤ, ◌≤ℤ◌}
use aeon_backend.Base.Rows.{All-map}

-- The order of Go's strings is that of their code points.
unfoldable pub codes_lt : List ℕ → List ℕ → Bool
codes_lt [] [] = false
codes_lt [] (d ∷ ds) = true
codes_lt (c ∷ cs) [] = false
codes_lt (c ∷ cs) (d ∷ ds) = let rest = codes_lt cs ds in if nat_eq c d then rest else ltb c d

abbrev pub text_lt : String → String → Bool
text_lt a b = codes_lt (codes a) (codes b)

module _ {ℓ} {A : Type ℓ} (less : A → A → Bool) where
  unfoldable pub insert_with : A → List A → List A
  insert_with x [] = x ∷ []
  insert_with x (y ∷ ys) = if less y x then y ∷ insert_with x ys else x ∷ y ∷ ys

  unfoldable pub sort_with : List A → List A
  unfolding insert_with
  sort_with [] = []
  sort_with (x ∷ xs) = insert_with x (sort_with xs)

  pub All-insert_with {κ} :
      (P : A → Type κ) (x : A) (xs : List A) → P x → All P xs → All P (insert_with x xs)
  unfolding insert_with
  All-insert_with P x [] p h = (p, tt)
  All-insert_with P x (y ∷ ys) p h = elim (Bool-cases (less y x)) [
    | inl t ↦ rw t (h.0, All-insert_with P x ys p h.1)
    | inr f ↦ rw f (p, h)
  ]

  pub All-sort_with {κ} : (P : A → Type κ) (xs : List A) → All P xs → All P (sort_with xs)
  unfolding sort_with
  All-sort_with P [] h = tt
  All-sort_with P (x ∷ xs) h = All-insert_with P x (sort_with xs) h.0 (All-sort_with P xs h.1)

module _ {ℓ} {A : Type ℓ} (less : A → A → Bool) where
  All-uninsert_with {κ} :
      (P : A → Type κ) (x : A) (xs : List A) → All P (insert_with less x xs) → P x × All P xs
  unfolding insert_with
  All-uninsert_with P x [] h = h
  All-uninsert_with P x (y ∷ ys) h = elim (Bool-cases (less y x)) [
    | inl t ↦ let rest = All-uninsert_with P x ys (rw t at h).1 in (rest.0, ((rw t at h).0, rest.1))
    | inr f ↦ rw f at h
  ]

  pub All-unsort_with {κ} : (P : A → Type κ) (xs : List A) → All P (sort_with less xs) → All P xs
  unfolding sort_with
  All-unsort_with P [] h = tt
  All-unsort_with P (x ∷ xs) h =
      let first = All-uninsert_with P x (sort_with less xs) h in
      (first.0, All-unsort_with P xs first.1)

-- Each element is at most the ones behind it.
abbrev pub Ascending : List ℤ → Type 0
Ascending [] = Unit
Ascending (x ∷ xs) = All (λ y. x ≤ℤ y) xs × Ascending xs

Ascending-insert : (x : ℤ) (xs : List ℤ) → Ascending xs → Ascending (insert_with ltb_ℤ x xs)
unfolding insert_with
Ascending-insert x [] h = (tt, tt)
Ascending-insert x (y ∷ ys) h = elim (Bool-cases (ltb_ℤ y x)) [
  | inl t ↦
      rw t (All-insert_with ltb_ℤ (λ z. y ≤ℤ z) x ys (ground arith) h.0, Ascending-insert x ys h.1)
  | inr f ↦
      let less : x ≤ℤ y = ground arith in
      rw f ((less, All-map _ _ (λ z k. omega (arith, less, k)) ys h.0), h)
]

-- `sort.Ints` sorts.
pub Ascending-sort : (xs : List ℤ) → Ascending (sort_with ltb_ℤ xs)
unfolding sort_with
Ascending-sort [] = tt
Ascending-sort (x ∷ xs) = Ascending-insert x (sort_with ltb_ℤ xs) (Ascending-sort xs)
