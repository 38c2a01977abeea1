-- ===== src/Base/Digits.antt =====
-- Numbers in a base: the digits of a number, the least first, and the number that digits stand for.
use mathlib.Core.List.{reverse, reverse-append}
use native.Mathlib.Nat.{div-lt_self, div-add-mod}
use aeon_backend.Base.Tests.{nat_eq}
use aeon_backend.Base.{
  Bool-cases, List, [], arith, false, inl, inr, suc, true, zero, ℕ, ◌%◌, ◌*◌, ◌+◌, ◌/◌, ◌∷◌, ◌≡◌,
  ◌≢◌, ◌≤◌, ◌<◌, All, refl, ap, replicate, ◌++◌, ◌∙◌,
}

-- The loop `for value > 0 { value, mod = value/base, value%base }`, on fuel.
unfoldable pub digits_fuel : ℕ → ℕ → ℕ → List ℕ
digits_fuel b zero n = []
digits_fuel b (suc f) n = elim (nat_eq n 0) [
  | true ↦ []
  | false ↦ (n % b) ∷ digits_fuel b f (n / b)
]

-- The digits: a number is fuel enough, since each division makes it smaller.
unfoldable pub digits : ℕ → ℕ → List ℕ
unfolding digits_fuel
digits b n = digits_fuel b n n

unfoldable pub from_digits : ℕ → List ℕ → ℕ
from_digits b [] = 0
from_digits b (d ∷ ds) = d + b * from_digits b ds

-- The last digit, the one of the greatest weight, is not zero.
abbrev pub IsTrimmed : List ℕ → Type 0
IsTrimmed [] = Unit
IsTrimmed (d ∷ []) = d ≢ 0
IsTrimmed (d ∷ e ∷ ds) = IsTrimmed (e ∷ ds)

module _ (b f n : ℕ) where
  digits_fuel-zero : n ≡ 0 → digits_fuel b (suc f) n ≡ []
  unfolding digits_fuel
  digits_fuel-zero z = ground arith

  digits_fuel-pos : 0 < n → digits_fuel b (suc f) n ≡ (n % b) ∷ digits_fuel b f (n / b)
  unfolding digits_fuel
  digits_fuel-pos p = ground arith

digits_fuel-nil : (b f : ℕ) → digits_fuel b f 0 ≡ []
digits_fuel-nil b zero = unfold digits_fuel in refl
digits_fuel-nil b (suc f) = digits_fuel-zero b f 0 refl

IsTrimmed-tail : (d : ℕ) (ds : List ℕ) → IsTrimmed (d ∷ ds) → IsTrimmed ds
IsTrimmed-tail d [] t = tt
IsTrimmed-tail d (e ∷ ds) t = t

IsTrimmed-cons : (d : ℕ) (ds : List ℕ) → ds ≢ [] → IsTrimmed ds → IsTrimmed (d ∷ ds)
IsTrimmed-cons d [] n t = absurd (n refl)
IsTrimmed-cons d (e ∷ ds) n t = t

module _ (b : ℕ) (big : 2 ≤ b) where
  div_smaller : (n : ℕ) → 0 < n → n / b < n
  div_smaller n p = div-lt_self p (omega arith)

  split : (n : ℕ) → n % b + b * (n / b) ≡ n
  split n = omega (arith, div-add-mod n b)

  mod_small : (n : ℕ) → n % b < b
  mod_small n = omega arith

  mod_of : (d w : ℕ) → d < b → (d + b * w) % b ≡ d
  mod_of d w h = grind arith

  div_of : (d w : ℕ) → d < b → (d + b * w) / b ≡ w
  div_of d w h = grind arith

  -- The digits stand for the number, on any fuel that the number does not exceed.
  from_digits-fuel : (f n : ℕ) → n ≤ f → from_digits b (digits_fuel b f n) ≡ n
  unfolding from_digits
  from_digits-fuel zero n h = unfold digits_fuel in omega arith
  from_digits-fuel (suc f) n h = elim (Bool-cases (nat_eq n 0)) [
    | inl z ↦ rw (digits_fuel-zero b f n (ground arith)) (ground arith)
    | inr p ↦
        rw (digits_fuel-pos b f n (ground arith))
          (rw (from_digits-fuel f (n / b) (omega (arith, div_smaller n (ground arith)))) (split n))
  ]

  pub from_digits-digits : (n : ℕ) → from_digits b (digits b n) ≡ n
  unfolding digits
  from_digits-digits n = from_digits-fuel n n (omega arith)

  digits_fuel_small : (f n : ℕ) → All (λ d. d < b) (digits_fuel b f n)
  digits_fuel_small zero n = unfold digits_fuel in tt
  digits_fuel_small (suc f) n = elim (Bool-cases (nat_eq n 0)) [
    | inl z ↦ rw (digits_fuel-zero b f n (ground arith)) tt
    | inr p ↦ rw (digits_fuel-pos b f n (ground arith)) (mod_small n, digits_fuel_small f (n / b))
  ]

  pub digits_small : (n : ℕ) → All (λ d. d < b) (digits b n)
  unfolding digits
  digits_small n = digits_fuel_small n n

  from_digits_pos : (ds : List ℕ) → IsTrimmed ds → ds ≢ [] → 0 < from_digits b ds
  unfolding from_digits
  from_digits_pos [] t n = absurd (n refl)
  from_digits_pos (d ∷ []) t n = omega arith
  from_digits_pos (d ∷ e ∷ ds) t n =
      let p : 0 < from_digits b (e ∷ ds) = from_digits_pos (e ∷ ds) t (λ q. cc) in
      scaled d (from_digits b (e ∷ ds)) p
    where
      scaled : (d v : ℕ) → 0 < v → 0 < d + b * v
      scaled d v h = grind arith

  less_of_digit : (d w f : ℕ) → 0 < d + b * w → d + b * w ≤ suc f → w ≤ f
  less_of_digit d w f p h = grind arith

  -- A list of digits, with no zero at its end, is the list of digits of its number.
  digits_fuel-from :
      (f : ℕ) (ds : List ℕ)
      → All (λ d. d < b) ds
      → IsTrimmed ds
      → from_digits b ds ≤ f
      → digits_fuel b f (from_digits b ds) ≡ ds
  unfolding from_digits
  digits_fuel-from f [] s t h = digits_fuel-nil b f
  digits_fuel-from zero (d ∷ ds) s t h =
      absurd (omega (arith, from_digits_pos (d ∷ ds) t (λ q. cc)))
  digits_fuel-from (suc f) (d ∷ ds) s t h =
      let p = from_digits_pos (d ∷ ds) t (λ q. cc) in
      rw (digits_fuel-pos b f (d + b * from_digits b ds) p) (
        rw (mod_of d (from_digits b ds) s.0, div_of d (from_digits b ds) s.0)
          (ap (λ r. d ∷ r)
            (digits_fuel-from f ds s.1 (IsTrimmed-tail d ds t)
              (less_of_digit d (from_digits b ds) f p h))))

  pub digits-from_digits :
      (ds : List ℕ) → All (λ d. d < b) ds → IsTrimmed ds → digits b (from_digits b ds) ≡ ds
  unfolding digits
  digits-from_digits ds s t = digits_fuel-from (from_digits b ds) ds s t (omega arith)

  digits_fuel-IsTrimmed : (f n : ℕ) → n ≤ f → IsTrimmed (digits_fuel b f n)
  digits_fuel-IsTrimmed zero n h = unfold digits_fuel in tt
  digits_fuel-IsTrimmed (suc f) n h = elim (Bool-cases (nat_eq n 0)) [
    | inl z ↦ rw (digits_fuel-zero b f n (ground arith)) tt
    | inr p ↦ rw (digits_fuel-pos b f n (ground arith)) (elim (Bool-cases (nat_eq (n / b) 0)) [
      | inl z ↦ last f (ground arith) (ground arith)
      | inr q ↦
          IsTrimmed-cons (n % b) (digits_fuel b f (n / b))
            (digits_fuel_some f (ground arith) (omega (arith, div_smaller n (ground arith))))
            (digits_fuel-IsTrimmed f (n / b) (omega (arith, div_smaller n (ground arith))))
    ])
  ]
    where
      last : (f : ℕ) → n / b ≡ 0 → 0 < n → IsTrimmed ((n % b) ∷ digits_fuel b f (n / b))
      last f z p = rw z (rw (digits_fuel-nil b f) (omega (arith, split n, ap (λ (x : ℕ). b * x) z)))

      digits_fuel_some : (f : ℕ) → 0 < n / b → n / b ≤ f → digits_fuel b f (n / b) ≢ []
      digits_fuel_some zero q le = absurd (omega arith)
      digits_fuel_some (suc f) q le = rw (digits_fuel-pos b f (n / b) q) (λ e. cc)

  pub digits-IsTrimmed : (n : ℕ) → IsTrimmed (digits b n)
  unfolding digits
  digits-IsTrimmed n = digits_fuel-IsTrimmed n n (omega arith)

-- Reading from the greatest digit, as the loops `acc = acc*base + digit` do.
unfoldable pub fold_be : ℕ → ℕ → List ℕ → ℕ
fold_be b acc [] = acc
fold_be b acc (d ∷ ds) = fold_be b (acc * b + d) ds

pub fold_be-append :
    (b acc : ℕ) (xs ys : List ℕ) → fold_be b acc (xs ++ ys) ≡ fold_be b (fold_be b acc xs) ys
unfolding fold_be
fold_be-append b acc [] ys = refl
fold_be-append b acc (x ∷ xs) ys = fold_be-append b (acc * b + x) xs ys

pub fold_be-reverse : (b : ℕ) (ds : List ℕ) → fold_be b 0 (reverse ds) ≡ from_digits b ds
unfolding from_digits fold_be
fold_be-reverse b [] = refl
fold_be-reverse b (d ∷ ds) =
    rw (reverse-append (d ∷ []) ds)
      (rw (fold_be-append b 0 (reverse ds) (d ∷ [])) (rw (fold_be-reverse b ds) (grind arith)))

-- Leading zeros count for nothing.
pub fold_be-zeros : (b z : ℕ) (ds : List ℕ) → fold_be b 0 (replicate z 0 ++ ds) ≡ fold_be b 0 ds
unfolding fold_be
fold_be-zeros b zero ds = refl
fold_be-zeros b (suc z) ds =
    let e : 0 * b + 0 ≡ 0 = grind arith in
    ap (λ a. fold_be b a (replicate z 0 ++ ds)) e ∙ fold_be-zeros b z ds
