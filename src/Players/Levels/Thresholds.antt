-- ===== src/Players/Levels/Thresholds.antt =====
-- The experience that a level takes, without wrap-around.
use aeon_backend.Players.Levels.{
  LevelProgressionRules, exp_for_next_level, exp_loop, exp_to_reach_level,
}
use aeon_backend.Base.Int.{
  add64, add64_nonneg, mul64, pos, sub64, sub64_nonneg, wrap64_fits, ◌+ℤ◌, ◌*ℤ◌, ◌-ℤ◌, wrap64,
}
use aeon_backend.Base.{
  Bool, if◌then◌else◌, ap, arith, refl, subst, suc, sym, zero, ℕ, ◌+◌, ◌*◌, ◌-◌, ◌^◌, ◌<◌, ◌∙◌, ◌≡◌,
  ◌≤◌, leb, false,
}

-- Rules whose numbers are not negative.
abbrev pub rules_of : ℕ → ℕ → ℕ → ℕ → LevelProgressionRules
rules_of m b l q = record { max_level = pos m; base = pos b; linear = pos l; quadratic = pos q }

-- The experience from one level to the next.
abbrev pub rise : ℕ → ℕ → ℕ → ℕ → ℕ
rise b l q level = b + l * level + q * level * level

-- The experience that a level takes in all: the rises from level 1 up to it.
unfoldable pub threshold : ℕ → ℕ → ℕ → ℕ → ℕ
threshold b l q zero = 0
threshold b l q (suc zero) = 0
threshold b l q (suc (suc k)) = threshold b l q (suc k) + rise b l q (suc k)

-- Sums and products that fit.
add64_pos : (a b : ℕ) → a + b < 2 ^ 63 → add64 (pos a) (pos b) ≡ pos (a + b)
unfolding ◌+ℤ◌
add64_pos a b h =
    add64_nonneg (pos a) (pos b) (omega arith) (omega arith) (ground arith) ∙ ground arith

mul_pos : (a b : ℕ) → pos a *ℤ pos b ≡ pos (a * b)
unfolding ◌*ℤ◌
mul_pos a b = ground arith

mul64_pos : (a b : ℕ) → a * b < 2 ^ 63 → mul64 (pos a) (pos b) ≡ pos (a * b)
unfolding mul64
mul64_pos a b h = ap wrap64 (mul_pos a b) ∙ wrap64_fits (pos (a * b)) h (omega arith)

pub sub64_pos : (a b : ℕ) → b ≤ a → a < 2 ^ 63 → sub64 (pos a) (pos b) ≡ pos (a - b)
unfolding ◌-ℤ◌
sub64_pos a b h k =
    sub64_nonneg (pos a) (pos b) (omega arith) (omega arith) (omega arith) ∙ ground arith

le_mul : (n k : ℕ) → n ≤ n * suc k
le_mul n k = omega arith

module _ (m b l q : ℕ) where
  exp_for_next_level-exact :
      (k : ℕ)
      → rise b l q (suc k) < 2 ^ 63
      → exp_for_next_level (rules_of m b l q) (suc k) ≡ pos (rise b l q (suc k))
  unfolding exp_for_next_level
  exp_for_next_level-exact k h =
      let small : q * suc k ≤ q * suc k * suc k = le_mul (q * suc k) k in
      ap (λ x. add64 (add64 (pos b) x) (mul64 (mul64 (pos q) (pos (suc k))) (pos (suc k))))
        (mul64_pos l (suc k) (omega arith))
      ∙ ap (λ x. add64 x (mul64 (mul64 (pos q) (pos (suc k))) (pos (suc k))))
          (add64_pos b (l * suc k) (omega arith))
      ∙ ap (λ x. add64 (pos (b + l * suc k)) (mul64 x (pos (suc k))))
          (mul64_pos q (suc k) (omega arith))
      ∙ ap (add64 (pos (b + l * suc k))) (mul64_pos (q * suc k) (suc k) (omega arith))
      ∙ add64_pos (b + l * suc k) (q * suc k * suc k) (omega arith)

  same : (k : ℕ) → k ≡ k + 0
  same k = omega arith

  pub threshold_mono : (d k : ℕ) → threshold b l q k ≤ threshold b l q (k + d)
  threshold_mono zero k = subst (λ n. threshold b l q k ≤ threshold b l q n) (same k) (omega arith)
  threshold_mono (suc d) k =
      let one : threshold b l q (k + d) ≤ threshold b l q (suc (k + d)) = step (k + d) in
      subst (λ n. threshold b l q k ≤ threshold b l q n) (further k)
        (omega (arith, threshold_mono d k, one))
    where
      further : (k : ℕ) → suc (k + d) ≡ k + suc d
      further k = omega arith

      step : (j : ℕ) → threshold b l q j ≤ threshold b l q (suc j)
      step zero = unfold threshold in omega arith
      step (suc j) = unfold threshold in omega arith

  exp_loop-exact :
      (count k : ℕ)
      → threshold b l q (suc k + count) < 2 ^ 63
      → exp_loop (rules_of m b l q) count (suc k) (pos (threshold b l q (suc k)))
        ≡ pos (threshold b l q (suc k + count))
  unfolding exp_loop threshold
  exp_loop-exact zero k h = ap (λ n. pos (threshold b l q n)) (same (suc k))
  exp_loop-exact (suc count) k h =
      let shift : suc k + suc count ≡ suc (suc k) + count = omega arith in
      let fits : threshold b l q (suc (suc k) + count) < 2 ^ 63 =
        subst (λ n. threshold b l q n < 2 ^ 63) shift h in
      let below : threshold b l q (suc (suc k)) < 2 ^ 63 =
        omega (arith, threshold_mono count (suc (suc k)), fits) in
      ap (λ x. exp_loop (rules_of m b l q) count (suc (suc k)) x) (next below)
      ∙ exp_loop-exact count (suc k) fits
      ∙ ap (λ n. pos (threshold b l q n)) (sym shift)
    where
      next :
          threshold b l q (suc k) + rise b l q (suc k) < 2 ^ 63
          → add64 (pos (threshold b l q (suc k))) (exp_for_next_level (rules_of m b l q) (suc k))
            ≡ pos (threshold b l q (suc k) + rise b l q (suc k))
      next below =
          ap (add64 (pos (threshold b l q (suc k)))) (exp_for_next_level-exact k (omega arith))
          ∙ add64_pos (threshold b l q (suc k)) (rise b l q (suc k)) below

  opened :
      (k : ℕ)
      → exp_to_reach_level (rules_of m b l q) (suc (suc k))
        ≡ exp_loop (rules_of m b l q) (suc k) 1 (pos 0)
  unfolding exp_to_reach_level
  opened k =
      ap
        (λ (c : Bool). if c then pos 0 else exp_loop (rules_of m b l q) (suc (suc k) - 1) 1 (pos 0))
        (above k)
      ∙ ap (λ n. exp_loop (rules_of m b l q) n 1 (pos 0)) (less k)
    where
      above : (k : ℕ) → leb (suc (suc k)) 1 ≡ false
      above k = ground arith

      less : (k : ℕ) → suc (suc k) - 1 ≡ suc k
      less k = omega arith

  -- Where the threshold of a level fits an int64, `expRequiredToReachLevel` returns it.
  pub exp_to_reach_level-exact :
      (k : ℕ)
      → threshold b l q k < 2 ^ 63
      → exp_to_reach_level (rules_of m b l q) k ≡ pos (threshold b l q k)
  unfolding exp_to_reach_level threshold
  exp_to_reach_level-exact zero h = refl
  exp_to_reach_level-exact (suc zero) h = refl
  exp_to_reach_level-exact (suc (suc k)) h =
      opened k
      ∙ exp_loop-exact (suc k) 0 (subst (λ n. threshold b l q n < 2 ^ 63) (sum k) h)
      ∙ ap (λ n. pos (threshold b l q n)) (sym (sum k))
    where
      sum : (k : ℕ) → suc (suc k) ≡ 1 + suc k
      sum k = omega arith

  -- Above level 1 the threshold is positive, if some number of the rules is.
  pub threshold_positive : (k : ℕ) → 0 < b + l + q → 0 < threshold b l q (suc (suc k))
  unfolding threshold
  threshold_positive k some_positive = omega (arith, le_mul l k, le_mul q k, le_mul (q * suc k) k)
