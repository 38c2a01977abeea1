-- ===== src/Chain/Amounts/Scale.antt =====
-- Converting to raw units and back.
use native.Mathlib.Nat.{
  mul-div_cancel, pow-succ', pow-zero, mod-eq_of_lt, mul-suc, div-one, one-mul, pow-le-pow_right,
  zero-add, suc-add,
}
use aeon_backend.Base.{
  arith, none, ok, refl, some, suc, zero, ℕ, ◌%◌, ◌*◌, ◌+◌, ◌<◌, ◌^◌, ◌↔◌, ◌≡◌, ap, ◌/◌, ◌∙◌,
  Bool-cases, inl, inr, leb, sym, ◌≤◌,
}
use aeon_backend.Chain.Amounts.{game_to_raw, raw_to_game, scale_loop}
use aeon_backend.Base.Int.{IsInt64, pos, pos_part, ℤ, ◌<ℤ◌, ◌≤ℤ◌, negsuc, wrap64, wrap64_fits}

-- `GameToRawAmount` returns a value exactly when the amount is positive, the decimals lie between
-- 0 and 18 and the product with the power of ten fits a uint64, and the value is that product.
game_to_raw-ok :
    (a d : ℤ) (r : ℕ)
    → (game_to_raw a d ≡ ok r) ↔ (
        (pos 0 <ℤ a)
        × (pos 0 ≤ℤ d)
        × (d ≤ℤ pos 18)
        × (pos_part a * 10 ^ pos_part d < 2 ^ 64)
        × (r ≡ pos_part a * 10 ^ pos_part d))
unfolding game_to_raw
game_to_raw-ok a d r = (λ h. ground arith, λ h. ground arith)

pow10_pos : (n : ℕ) → 0 < 10 ^ n
pow10_pos zero = rw pow-zero (omega arith)
pow10_pos (suc n) = rw pow-succ' (omega (arith, pow10_pos n))

-- The loop multiplies as long as nothing wraps.
scale_loop_exact : (n k : ℕ) → k * 10 ^ n < 2 ^ 64 → scale_loop n k ≡ k * 10 ^ n
unfolding scale_loop
scale_loop_exact zero k h = rw pow-zero (omega arith)
scale_loop_exact (suc n) k h =
    let e : k * 10 ^ suc n ≡ k * 10 * 10 ^ n = rw pow-succ' (regroup (10 ^ n)) in
    let fits : k * 10 * 10 ^ n < 2 ^ 64 = omega (arith, e) in
    ap (scale_loop n) (unwrapped (k * 10) (10 ^ n) (pow10_pos n) fits)
    ∙ scale_loop_exact n (k * 10) fits
    ∙ sym e
  where
    regroup : (p : ℕ) → k * (10 * p) ≡ k * 10 * p
    regroup p = grind arith

    unwrapped : (m p : ℕ) → 0 < p → m * p < 2 ^ 64 → m % 2 ^ 64 ≡ m
    unwrapped m zero q f = absurd (omega arith)
    unwrapped m (suc p) q f = mod-eq_of_lt (below m p f)
      where
        below : (m p : ℕ) → m * suc p < 2 ^ 64 → m < 2 ^ 64
        below m p f = let g = mul-suc m p in omega arith

-- Once it is zero it stays zero.
scale_loop-zero : (n : ℕ) → scale_loop n 0 ≡ 0
unfolding scale_loop
scale_loop-zero zero = refl
scale_loop-zero (suc n) = scale_loop-zero n

scale_loop-add : (m n k : ℕ) → scale_loop (m + n) k ≡ scale_loop n (scale_loop m k)
unfolding scale_loop
scale_loop-add zero n k = rw zero-add refl
scale_loop-add (suc m) n k = rw suc-add (scale_loop-add m n (k * 10 % 2 ^ 64))

-- With 64 decimals or more the wrapped divisor is zero, so `RawToGameAmount` panics.
pub raw_to_game-panics : (raw k : ℕ) → raw_to_game raw (pos (64 + k)) ≡ none
raw_to_game-panics raw k =
    positive raw (64 + k) (omega arith)
      (scale_loop-add 64 k 1 ∙ ap (scale_loop k) wrapped ∙ scale_loop-zero k)
  where
    wrapped : scale_loop 64 1 ≡ 0
    wrapped = unfold scale_loop in refl

    positive : (raw d : ℕ) → 0 < d → scale_loop d 1 ≡ 0 → raw_to_game raw (pos d) ≡ none
    positive raw d p e = unfold raw_to_game in ground arith

raw_to_game-scale :
    (raw d div : ℕ)
    → scale_loop d 1 ≡ div
    → 0 < div
    → (d ≡ 0 → div ≡ 1)
    → raw_to_game raw (pos d) ≡ some (wrap64 (pos (raw / div)))
unfolding raw_to_game
raw_to_game-scale raw d div e p one = elim (Bool-cases (leb (d + 0) 0)) [
  | inl z ↦
      rw z (
        ap (λ x. some (wrap64 (pos x)))
          (sym (ap (λ x. raw / x) (one (ground arith)) ∙ div-one raw)))
  | inr n ↦ rw n (rw e (ground arith))
]

-- Converting an int64 amount to raw units, where that succeeds, and back gives the amount.
pub raw_to_game-game_to_raw :
    (a d : ℤ) (r : ℕ) → IsInt64 a → game_to_raw a d ≡ ok r → raw_to_game r d ≡ some a
raw_to_game-game_to_raw a (negsuc d) r fits h =
    absurd (let k = ((game_to_raw-ok a (negsuc d) r).0 h).1 in omega arith)
raw_to_game-game_to_raw a (pos d) r fits h =
    let k = (game_to_raw-ok a (pos d) r).0 h in
    ap (λ x. raw_to_game x (pos d)) k.4
    ∙ raw_to_game-scale (pos_part a * 10 ^ d) d (10 ^ d) (divisor d k.2) (pow10_pos d)
        (λ z. ap (λ x. 10 ^ x) z ∙ pow-zero 10)
    ∙ ap (λ x. some (wrap64 (pos x))) (mul-div_cancel (pos_part a) (pow10_pos d))
    ∙ ap some (exact a fits k.0)
  where
    small : (d : ℕ) → pos d ≤ℤ pos 18 → 10 ^ d ≤ 10 ^ 18
    small d le = pow-le-pow_right {n = 10} (omega arith) {i = d} {j = 18} (omega arith)

    divisor : (d : ℕ) → pos d ≤ℤ pos 18 → scale_loop d 1 ≡ 10 ^ d
    divisor d le =
        scale_loop_exact d 1 (let s = small d le in omega (arith, one-mul (10 ^ d)))
        ∙ one-mul (10 ^ d)

    exact : (a : ℤ) → IsInt64 a → pos 0 <ℤ a → wrap64 (pos (pos_part a)) ≡ a
    exact (pos n) f p = wrap64_fits (pos n) (omega arith) (omega arith)
    exact (negsuc n) f p = absurd (omega arith)
