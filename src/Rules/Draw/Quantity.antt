-- ===== src/Rules/Draw/Quantity.antt =====
-- The range of `rollQuantity`.
use aeon_backend.Base.{ℕ, arith, Bool-cases, inl, inr, ◌≡◌, ◌^◌, refl, ap, if◌then◌else◌}
use aeon_backend.Base.Int.{
  ℤ, pos, negsuc, ◌≤ℤ◌, ◌<ℤ◌, ◌+ℤ◌, ◌-ℤ◌, IsInt64, add64_nonneg, sub64_nonneg, int_laws, int_eq,
  add64, sub64,
}
use aeon_backend.Rules.Outcome.{returned, ◌>>=◌}
use aeon_backend.Rules.Runtime.{Runtime}
use aeon_backend.Rules.Draw.{draw, at_least_one, at_least, raised, roll_quantity}

-- `IntN` of a positive bound returns a value below it, and not below zero.
pub draw_lem :
    (go : Runtime) (n : ℤ) (rng : ℕ)
    → pos 0 <ℤ n
    → (v : ℕ) × (rng' : ℕ) × (draw go n rng ≡ returned (pos v, rng')) × (pos v <ℤ n)
unfolding draw
draw_lem go (pos n) rng h = (
  (go.int_n n rng).0,
  (go.int_n n rng).1,
  ground arith,
  omega (arith, go.int_n_lt n rng (omega arith)),
)
draw_lem go (negsuc n) rng h = absurd (omega arith)

-- A draw from the values between two positive ends.
between :
    (go : Runtime) (low high : ℤ) (rng : ℕ)
    → pos 1 ≤ℤ low
    → low <ℤ high
    → high <ℤ pos (2 ^ 63)
    → (v : ℤ) × (rng' : ℕ) × ((draw go (add64 (sub64 high low) (pos 1)) rng >>= raised low)
        ≡ returned (v, rng'))
      × (low ≤ℤ v)
      × (v ≤ℤ high)
between go low high rng one less fits =
    let d : sub64 high low ≡ high -ℤ low = sub64_nonneg high low (omega arith) (omega arith) fits in
    let n : add64 (high -ℤ low) (pos 1) ≡ (high -ℤ low) +ℤ pos 1 =
      add64_nonneg (high -ℤ low) (pos 1) (omega int_laws) (omega arith) (omega int_laws) in
    let drawn = draw_lem go ((high -ℤ low) +ℤ pos 1) rng (omega int_laws) in
    let e : add64 low (pos drawn.0) ≡ low +ℤ pos drawn.0 =
      add64_nonneg low (pos drawn.0) (omega arith) (omega arith) (omega (int_laws, drawn.3)) in
    (
      low +ℤ pos drawn.0,
      drawn.1,
      rw (d, n, drawn.2) (ap (λ v. returned (v, drawn.1)) e),
      omega int_laws,
      omega (int_laws, drawn.3),
    )

-- `rollQuantity` never panics, and returns at least the lower end, where that is positive, and one
-- otherwise, and at most the larger of that and the upper end, for any int64 ends.
pub roll_quantity_range :
    (go : Runtime) (min max : ℤ) (rng : ℕ)
    → IsInt64 min
    → IsInt64 max
    → (v : ℤ) × (rng' : ℕ) × (roll_quantity go min max rng ≡ returned (v, rng'))
      × (at_least_one min ≤ℤ v)
      × (v ≤ℤ at_least (at_least_one min) max)
unfolding roll_quantity
roll_quantity_range go min max rng fmin fmax =
    decided (at_least_one min) (at_least (at_least_one min) max) (ground arith) (ground arith)
      (ground arith)
  where
    decided :
        (low high : ℤ)
        → pos 1 ≤ℤ low
        → low ≤ℤ high
        → high <ℤ pos (2 ^ 63)
        → (v : ℤ) × (rng' : ℕ) × ((if int_eq high low
              then returned (low, rng)
              else (draw go (add64 (sub64 high low) (pos 1)) rng >>= raised low))
            ≡ returned (v, rng'))
          × (low ≤ℤ v)
          × (v ≤ℤ high)
    decided low high one less fits = elim (Bool-cases (int_eq high low)) [
      | inl t ↦ (low, rng, rw t refl, omega arith, less)
      | inr f ↦ rw f (between go low high rng one (ground arith) fits)
    ]
