-- ===== src/Rules/Draw/Weighted.antt =====
-- The loops that pick a row by its weight: a positive total finds a row that counts.
use aeon_backend.Base.{
  ℕ, Bool, arith, Bool-cases, inl, inr, All, true, Option, some, List, [], ◌∷◌, refl, ◌≡◌, ◌^◌,
  subst, sym, if◌then◌else◌,
}
use aeon_backend.Base.Int.{
  ℤ, pos, ◌≤ℤ◌, ◌<ℤ◌, ◌+ℤ◌, IsInt64, sub64_nonneg, int_laws, ltb_ℤ, add64, sub64, add64_le,
  add64-IsInt64,
}
use mathlib.Core.Option.{some-injective}
use aeon_backend.Rules.Outcome.{Outcome, returned, ◌>>=◌}
use aeon_backend.Rules.Runtime.{Runtime}
use aeon_backend.Rules.Draw.{draw, total_weight, pick_row}
use aeon_backend.Rules.Draw.Quantity.{draw_lem}

-- What is left of a pick when a weight is taken off it.
left_over :
    (pick w rest : ℤ)
    → pos 0 ≤ℤ w
    → w ≤ℤ pick
    → pick <ℤ pos (2 ^ 63)
    → (pos 0 ≤ℤ sub64 pick w)
      × (sub64 pick w <ℤ pos (2 ^ 63))
      × (pick <ℤ w +ℤ rest → sub64 pick w <ℤ rest)
left_over pick w rest nonneg less high =
    subst (λ x. (pos 0 ≤ℤ x) × (x <ℤ pos (2 ^ 63)) × (pick <ℤ w +ℤ rest → x <ℤ rest))
      (sym (sub64_nonneg pick w nonneg less high))
      (omega int_laws, omega int_laws, λ h. omega int_laws)

module _ {ℓ} {A : Type ℓ} (counts : A → Bool) (weight : A → ℤ) where
  -- The weight of a row that counts is an int64 and not negative.
  abbrev pub Weighs : A → Type 0
  Weighs row = counts row ≡ true → (pos 0 ≤ℤ weight row) × (weight row <ℤ pos (2 ^ 63))

  unfoldable pub exact_weight : List A → ℤ
  exact_weight [] = pos 0
  exact_weight (row ∷ rows) =
      if counts row then weight row +ℤ exact_weight rows else exact_weight rows

  -- Sums that wrap never exceed the exact sum.
  pub total_weight-le :
      (total : ℤ) (rows : List A)
      → IsInt64 total
      → All Weighs rows
      → total_weight counts weight total rows ≤ℤ total +ℤ exact_weight rows
  unfolding total_weight exact_weight
  total_weight-le total [] fits h = omega int_laws
  total_weight-le total (row ∷ rows) fits h = elim (Bool-cases (counts row)) [
    | inl t ↦ rw t (
        step (h.0 t)
          (total_weight-le (add64 total (weight row)) rows (add64-IsInt64 total (weight row)) h.1))
    | inr f ↦ rw f (total_weight-le total rows fits h.1)
  ]
    where
      step :
          (pos 0 ≤ℤ weight row) × (weight row <ℤ pos (2 ^ 63))
          → total_weight counts weight (add64 total (weight row)) rows
            ≤ℤ add64 total (weight row) +ℤ exact_weight rows
          → total_weight counts weight (add64 total (weight row)) rows
            ≤ℤ total +ℤ (weight row +ℤ exact_weight rows)
      step w rest =
          let less : add64 total (weight row) ≤ℤ total +ℤ weight row =
            add64_le total (weight row) (omega int_laws) in
          omega (int_laws, less, rest)

  pub total_weight-IsInt64 :
      (total : ℤ) (rows : List A) → IsInt64 total → IsInt64 (total_weight counts weight total rows)
  unfolding total_weight
  total_weight-IsInt64 total [] fits = fits
  total_weight-IsInt64 total (row ∷ rows) fits = elim (Bool-cases (counts row)) [
    | inl t ↦
        rw t
          (total_weight-IsInt64 (add64 total (weight row)) rows (add64-IsInt64 total (weight row)))
    | inr f ↦ rw f (total_weight-IsInt64 total rows fits)
  ]

  -- A pick below the exact sum falls into a row.
  pick_row-found :
      (pick : ℤ) (rows : List A)
      → pos 0 ≤ℤ pick
      → pick <ℤ pos (2 ^ 63)
      → pick <ℤ exact_weight rows
      → All Weighs rows
      → (row : A) × (pick_row counts weight pick rows ≡ some row)
  unfolding pick_row exact_weight
  pick_row-found pick [] low high below h = absurd (omega arith)
  pick_row-found pick (row ∷ rows) low high below h = elim (Bool-cases (counts row)) [
    | inl t ↦ elim (Bool-cases (ltb_ℤ pick (weight row))) [
      | inl here ↦ (row, rw (t, here) refl)
      | inr there ↦
          let w = h.0 t in
          let less : weight row ≤ℤ pick = ground arith in
          let left = left_over pick (weight row) (exact_weight rows) w.0 less high in
          let found =
            pick_row-found (sub64 pick (weight row)) rows left.0 left.1 (left.2 (rw t at below))
              h.1 in
          (found.0, rw (t, there) found.1)
    ]
    | inr f ↦
        let found = pick_row-found pick rows low high (rw f at below) h.1 in (found.0, rw f found.1)
  ]

  -- The row that is picked counts, has a positive weight and is one of the rows.
  pub pick_row-counts {κ} :
      (P : A → Type κ) (pick : ℤ) (rows : List A) (row : A)
      → pos 0 ≤ℤ pick
      → pick <ℤ pos (2 ^ 63)
      → All Weighs rows
      → All P rows
      → pick_row counts weight pick rows ≡ some row
      → (counts row ≡ true) × (pos 0 <ℤ weight row) × P row
  unfolding pick_row
  pick_row-counts P pick [] row low high h p found = cc
  pick_row-counts P pick (x ∷ rows) row low high h p found = elim (Bool-cases (counts x)) [
    | inl t ↦ elim (Bool-cases (ltb_ℤ pick (weight x))) [
      | inl here ↦
          let same : x ≡ row = some-injective x row (rw (t, here) at found) in
          subst (λ y. (counts y ≡ true) × (pos 0 <ℤ weight y) × P y) same (t, ground arith, p.0)
      | inr there ↦
          let less : weight x ≤ℤ pick = ground arith in
          let left = left_over pick (weight x) (pos 0) (h.0 t).0 less high in
          pick_row-counts P (sub64 pick (weight x)) rows row left.0 left.1 h.1 p.1
            (rw (t, there) at found)
    ]
    | inr f ↦ pick_row-counts P pick rows row low high h.1 p.1 (rw f at found)
  ]

  -- `pick := rng.IntN(total)` and the loop that follows it.
  abbrev pub pick_below : Runtime → ℤ → List A → ℕ → Outcome (Option A × ℕ)
  pick_below go total rows rng =
      draw go total rng >>= λ drawn. returned (pick_row counts weight drawn.0 rows, drawn.1)

  -- With a positive total, at most the exact sum, a row is picked that counts.
  pub pick_below_lem {κ} :
      (P : A → Type κ) (go : Runtime) (total : ℤ) (rows : List A) (rng : ℕ)
      → All Weighs rows
      → All P rows
      → IsInt64 total
      → pos 0 <ℤ total
      → total ≤ℤ exact_weight rows
      → (row : A) × (rng' : ℕ) × (pick_below go total rows rng ≡ returned (some row, rng'))
        × (counts row ≡ true)
        × (pos 0 <ℤ weight row)
        × P row
  pick_below_lem P go total rows rng h p fits positive exact =
      let drawn = draw_lem go total rng positive in
      let small : pos drawn.0 <ℤ pos (2 ^ 63) = omega (arith, drawn.3, fits.0) in
      let found =
        pick_row-found (pos drawn.0) rows (omega arith) small (omega (int_laws, exact, drawn.3))
          h in
      let picked = pick_row-counts P (pos drawn.0) rows found.0 (omega arith) small h p found.1 in
      (found.0, drawn.1, rw drawn.2 (rw found.1 refl), picked.0, picked.1, picked.2)

  abbrev pub pick_weighted : Runtime → List A → ℕ → Outcome (Option A × ℕ)
  pick_weighted go rows = pick_below go (total_weight counts weight (pos 0) rows) rows

  -- With a positive total a row is picked that counts, with a positive weight.
  pub pick_weighted_lem {κ} :
      (P : A → Type κ) (go : Runtime) (rows : List A) (rng : ℕ)
      → All Weighs rows
      → All P rows
      → pos 0 <ℤ total_weight counts weight (pos 0) rows
      → (row : A) × (rng' : ℕ) × (pick_weighted go rows rng ≡ returned (some row, rng'))
        × (counts row ≡ true)
        × (pos 0 <ℤ weight row)
        × P row
  pick_weighted_lem P go rows rng h p positive =
      let exact = total_weight-le (pos 0) rows (omega arith) h in
      pick_below_lem P go (total_weight counts weight (pos 0) rows) rows rng h p
        (total_weight-IsInt64 (pos 0) rows (omega arith)) positive (omega (int_laws, exact))
