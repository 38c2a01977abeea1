-- ===== src/Rules/Runtime.antt =====
-- What the economy rules use of Go: math/rand/v2, the arithmetic of float64, `strings.ToLower` and
-- `strings.EqualFold`. A float64 is its bit pattern, and the order of these is written out; a
-- generator is the number that stands for its state.
use aeon_backend.Base.{ℕ, String, Bool, if◌then◌else◌, not, ◌&&◌, ◌-◌, ◌<◌, ◌^◌, ltb, leb}
use aeon_backend.Base.Int.{ℤ, pos, negsuc, ltb_ℤ}

pub record Runtime : Type 0 where
  -- `rand.NewPCG`
  pub pcg : ℕ → ℕ → ℕ
  -- `IntN` of a positive bound: the value and the generator behind it.
  pub int_n : ℕ → ℕ → ℕ × ℕ
  pub int_n_lt : (bound generator : ℕ) → 0 < bound → (int_n bound generator).0 < bound
  -- `Float64`
  pub float64 : ℕ → ℕ × ℕ
  pub plus : ℕ → ℕ → ℕ
  pub minus : ℕ → ℕ → ℕ
  pub times : ℕ → ℕ → ℕ
  pub over : ℕ → ℕ → ℕ
  pub of_int : ℤ → ℕ
  pub lower : String → String
  pub equal_fold : String → String → Bool

-- The bit patterns of zero, one and 0.10.
abbrev pub float_zero : ℕ
float_zero = 0

abbrev pub float_one : ℕ
float_one = 0x3ff0000000000000

abbrev pub float_tenth : ℕ
float_tenth = 0x3fb999999999999a

-- The exponent is full, and the fraction not zero.
abbrev pub is_nan : ℕ → Bool
is_nan x = ltb 0x7ff0000000000000 (if ltb x (2 ^ 63) then x else x - 2 ^ 63)

-- Sign and magnitude as an integer: the two zeros are equal.
abbrev pub magnitude : ℕ → ℤ
magnitude x =
    if ltb x (2 ^ 63) then pos x else if leb x (2 ^ 63) then pos 0 else negsuc (x - 2 ^ 63 - 1)

-- `a < b`
unfoldable pub float_lt : ℕ → ℕ → Bool
float_lt a b = not (is_nan a) && not (is_nan b) && ltb_ℤ (magnitude a) (magnitude b)

-- `a <= b`
unfoldable pub float_le : ℕ → ℕ → Bool
float_le a b = not (is_nan a) && not (is_nan b) && not (ltb_ℤ (magnitude b) (magnitude a))
