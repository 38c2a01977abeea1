-- ===== src/Rules/Draw.antt =====
-- What is drawn at random: `rollQuantity`, and the loops that pick a row by its weight, of
-- internal/economy/rules/config.go (weightedString, weightedInt, weightedAffix,
-- weightedEligibleAffix and BountyTaskPlan).
pub mod Quantity
pub mod Weighted
pub mod Keys
use aeon_backend.Base.{ℕ, Bool, if◌then◌else◌, Option, none, some, List, [], ◌∷◌}
use aeon_backend.Base.Int.{ℤ, pos, pos_part, leb_ℤ, ltb_ℤ, add64, sub64, int_eq}
use aeon_backend.Rules.Outcome.{Outcome, panicked, returned, ◌>>=◌}
use aeon_backend.Rules.Runtime.{Runtime}

-- `rng.IntN(n)` and `rng.Int64N(n)`: they panic unless the bound is positive.
unfoldable pub draw : Runtime → ℤ → ℕ → Outcome (ℤ × ℕ)
draw go n rng =
    if leb_ℤ n (pos 0)
    then panicked
    else returned (pos (go.int_n (pos_part n) rng).0, (go.int_n (pos_part n) rng).1)

abbrev pub at_least_one : ℤ → ℤ
at_least_one min = if leb_ℤ min (pos 0) then pos 1 else min

abbrev pub at_least : ℤ → ℤ → ℤ
at_least low max = if ltb_ℤ max low then low else max

-- The sum of a drawn value and the lower end.
abbrev pub raised : ℤ → ℤ × ℕ → Outcome (ℤ × ℕ)
raised low drawn = returned (add64 low drawn.0, drawn.1)

-- `rollQuantity`
unfoldable pub roll_quantity : Runtime → ℤ → ℤ → ℕ → Outcome (ℤ × ℕ)
unfolding draw
roll_quantity go min max rng =
    let low = at_least_one min in
    let high = at_least low max in
    if int_eq high low
    then returned (low, rng)
    else (draw go (add64 (sub64 high low) (pos 1)) rng >>= raised low)

module _ {ℓ} {A : Type ℓ} (counts : A → Bool) (weight : A → ℤ) where
  -- The loop that adds up the weights of the rows that count.
  unfoldable pub total_weight : ℤ → List A → ℤ
  total_weight total [] = total
  total_weight total (row ∷ rows) =
      total_weight (if counts row then add64 total (weight row) else total) rows

  -- The loop that takes weights off the pick until it falls into a row's.
  unfoldable pub pick_row : ℤ → List A → Option A
  pick_row pick [] = none
  pick_row pick (row ∷ rows) =
      let rest = pick_row (if counts row then sub64 pick (weight row) else pick) rows in
      if counts row then (if ltb_ℤ pick (weight row) then some row else rest) else rest
