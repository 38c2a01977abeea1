-- ===== src/Rules/Draw/Keys.antt =====
-- `weightedString`, `weightedInt` and `validateWeights` of internal/economy/rules/config.go: a map of
-- weights that passes the validation yields a key of positive weight.
use aeon_backend.Base.{
  ℕ, All, Bool, List, [], ◌∷◌, Eq, if◌then◌else◌, Bool-cases, inl, inr, true, none, Option, some,
  map, refl, ap, ◌≡◌, ◌∙◌, sym, arith, subst,
}
use aeon_backend.Base.Int.{ℤ, pos, ltb_ℤ, add64, ◌+ℤ◌, ◌≤ℤ◌, ◌<ℤ◌, int_laws, IsInt64}
use aeon_backend.Base.Dict.{Dict, lookup}
use aeon_backend.Base.Rows.{Distinct, Holds, Holds-self, All-map}
use aeon_backend.Base.Sorting.{insert_with, sort_with, All-sort_with}
use aeon_backend.Rules.Outcome.{Outcome, failed, returned, check, ◌>>=◌}
use aeon_backend.Rules.Runtime.{Runtime}
use aeon_backend.Rules.Draw.{draw, total_weight, pick_row}
use aeon_backend.Rules.Draw.Weighted.{
  exact_weight, total_weight-le, total_weight-IsInt64, pick_below, pick_below_lem, Weighs,
}

-- Every row counts.
abbrev pub all_count {ℓ} : {A : Type ℓ} → A → Bool
all_count row = true

module _ {ℓ} {K : Type ℓ} where
  -- The loop of `validateWeights`, and its last test.
  unfoldable pub validate_weights_from : ℤ → Dict K ℤ → Outcome (Unit {0})
  validate_weights_from total [] =
      check (ltb_ℤ (pos 0) total) "at least one weight must be positive" (returned tt)
  validate_weights_from total ((k, weight) ∷ rows) =
      let rest = validate_weights_from (add64 total weight) rows in
      if ltb_ℤ weight (pos 0) then failed "weight must not be negative" else rest

  -- `validateWeights`
  unfoldable pub validate_weights : Dict K ℤ → Outcome (Unit {0})
  unfolding validate_weights_from
  validate_weights rows = validate_weights_from (pos 0) rows

  abbrev pub row_weight : K × ℤ → ℤ
  row_weight row = row.1

  validate_weights_from_lem :
      (total : ℤ) (rows : Dict K ℤ)
      → validate_weights_from total rows ≡ returned tt
      → All (λ r. pos 0 ≤ℤ r.1) rows × (pos 0 <ℤ total_weight all_count row_weight total rows)
  unfolding validate_weights_from total_weight
  validate_weights_from_lem total [] h = (tt, ground arith)
  validate_weights_from_lem total ((k, w) ∷ rows) h = elim (Bool-cases (ltb_ℤ w (pos 0))) [
    | inl t ↦ cc (rw t at h)
    | inr f ↦
        let rest = validate_weights_from_lem (add64 total w) rows (rw f at h) in
        ((ground arith, rest.0), rest.1)
  ]

  -- What the validation establishes: no weight is negative, and the total is positive.
  pub validate_weights_lem :
      (rows : Dict K ℤ)
      → validate_weights rows ≡ returned tt
      → All (λ r. pos 0 ≤ℤ r.1) rows × (pos 0 <ℤ total_weight all_count row_weight (pos 0) rows)
  unfolding validate_weights
  validate_weights_lem rows h = validate_weights_from_lem (pos 0) rows h

abbrev pub or_else {ℓ} : {K : Type ℓ} → K → Option K → K
or_else fallback none = fallback
or_else fallback (some k) = k

exchange : (a b c : ℤ) → a +ℤ (b +ℤ c) ≡ b +ℤ (a +ℤ c)
exchange a b c = omega int_laws

module _ {ℓ} {K : Type ℓ} ⦃e : Eq K⦄ where
  -- `rows[value]`
  abbrev pub weight_of : Dict K ℤ → K → ℤ
  weight_of rows k = or_else (pos 0) (lookup k rows)

  abbrev keys_of : Dict K ℤ → List K
  keys_of rows = map (λ r. r.0) rows

module _ {ℓ} {K : Type ℓ} ⦃e : Eq K⦄ (less : K → K → Bool) where
  -- `weightedString` and `weightedInt`, with what they return where no key is found.
  unfoldable pub weighted_key : Runtime → K → Dict K ℤ → ℕ → Outcome (K × ℕ)
  unfolding draw total_weight pick_row sort_with
  weighted_key go fallback rows rng =
      pick_below all_count (weight_of rows) go (total_weight all_count row_weight (pos 0) rows)
        (sort_with less (keys_of rows)) rng
      >>= λ picked. returned (or_else fallback picked.0, picked.1)

  exact-insert :
      (weight : K → ℤ) (x : K) (xs : List K)
      → exact_weight all_count weight (insert_with less x xs)
        ≡ weight x +ℤ exact_weight all_count weight xs
  unfolding insert_with exact_weight
  exact-insert weight x [] = refl
  exact-insert weight x (y ∷ ys) = elim (Bool-cases (less y x)) [
    | inl t ↦ rw t (
        ap (λ s. weight y +ℤ s) (exact-insert weight x ys)
        ∙ exchange (weight y) (weight x) (exact_weight all_count weight ys))
    | inr f ↦ rw f refl
  ]

  exact-sort :
      (weight : K → ℤ) (xs : List K)
      → exact_weight all_count weight (sort_with less xs) ≡ exact_weight all_count weight xs
  unfolding sort_with exact_weight
  exact-sort weight [] = refl
  exact-sort weight (x ∷ xs) =
      exact-insert weight x (sort_with less xs) ∙ ap (λ t. weight x +ℤ t) (exact-sort weight xs)

  exact-keys :
      (m rows : Dict K ℤ)
      → Holds m rows
      → exact_weight all_count (weight_of m) (keys_of rows) ≡ exact_weight all_count row_weight rows
  unfolding exact_weight
  exact-keys m [] h = refl
  exact-keys m (r ∷ rows) h = rw h.0 (ap (λ t. r.1 +ℤ t) (exact-keys m rows h.1))

  -- What the map holds under a key of positive weight.
  abbrev pub Weighted : Dict K ℤ → K → Type 0
  Weighted m k = lookup k m ≡ some (weight_of m k)

  weighs_lem :
      (rows : Dict K ℤ)
      → All (λ r. pos 0 ≤ℤ r.1) rows
      → All (λ r. IsInt64 r.1) rows
      → All (Weighs all_count row_weight) rows
  weighs_lem [] n f = tt
  weighs_lem (r ∷ rows) n f = (λ t. (n.0, omega (arith, (f.0).0)), weighs_lem rows n.1 f.1)

  keys_lem :
      (m rows : Dict K ℤ)
      → Holds m rows
      → All (λ r. pos 0 ≤ℤ r.1) rows
      → All (λ r. IsInt64 r.1) rows
      → All (λ k. Weighs all_count (weight_of m) k × Weighted m k) (keys_of rows)
  keys_lem m [] h n f = tt
  keys_lem m (r ∷ rows) h n f =
      (rw h.0 (λ t. (n.0, omega (arith, (f.0).0)), refl), keys_lem m rows h.1 n.1 f.1)

  -- A map of weights that passes the validation yields one of its keys, with a positive weight.
  pub weighted_key_lem :
      (go : Runtime) (fallback : K) (rows : Dict K ℤ) (rng : ℕ)
      → Distinct rows
      → All (λ r. IsInt64 r.1) rows
      → validate_weights rows ≡ returned tt
      → (k : K) × (rng' : ℕ) × (weight : ℤ) × (weighted_key go fallback rows rng
          ≡ returned (k, rng'))
        × (lookup k rows ≡ some weight)
        × (pos 0 <ℤ weight)
  unfolding weighted_key
  weighted_key_lem go fallback rows rng distinct fits valid =
      let v = validate_weights_lem rows valid in
      let holds = Holds-self rows distinct in
      let ks = keys_lem rows rows holds v.0 fits in
      let sorted = All-sort_with less _ (keys_of rows) ks in
      let total = total_weight all_count row_weight (pos 0) rows in
      let exact =
        total_weight-le all_count row_weight (pos 0) rows (omega arith)
          (weighs_lem rows v.0 fits) in
      let sums = exact-sort (weight_of rows) (keys_of rows) ∙ exact-keys rows rows holds in
      let picked =
        pick_below_lem all_count (weight_of rows) (Weighted rows) go total
          (sort_with less (keys_of rows)) rng (All-map _ _ (λ k h. h.0) _ sorted)
          (All-map _ _ (λ k h. h.1) _ sorted)
          (total_weight-IsInt64 all_count row_weight (pos 0) rows (omega arith)) v.1
          (subst (λ s. total ≤ℤ s) (sym sums) (omega (int_laws, exact))) in
      (picked.0, picked.1, weight_of rows picked.0, rw picked.2 refl, picked.5, picked.4)
