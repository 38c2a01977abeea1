-- ===== src/Chain/Base58/Zeros.antt =====
-- Leading zeros: of a list of bytes, and of the digits of a number.
use mathlib.Core.List.{reverse-append}
use aeon_backend.Base.{
  Bool-cases, List, [], ap, arith, if◌then◌else◌, inl, inr, refl, replicate, suc, true, ℕ, ◌++◌,
  ◌==◌, ◌∙◌, ◌∷◌, ◌≡◌, ◌≢◌, nat_key,
}
use aeon_backend.Base.Digits.{IsTrimmed}
use aeon_backend.Chain.Base58.{leading_ones, one_char, reverse}

-- A list in two parts: its leading zeros, and the rest.
unfoldable pub zeros_of : List ℕ → ℕ
zeros_of [] = 0
zeros_of (b ∷ bs) = if b == 0 then suc (zeros_of bs) else 0

unfoldable pub strip : List ℕ → List ℕ
strip [] = []
strip (b ∷ bs) = if b == 0 then strip bs else b ∷ bs

pub split_zeros : (bs : List ℕ) → bs ≡ replicate (zeros_of bs) 0 ++ strip bs
unfolding zeros_of strip
split_zeros [] = refl
split_zeros (b ∷ bs) = elim (Bool-cases (b == 0)) [
  | inl z ↦ rw z (ap (λ x. x ∷ bs) (is_zero b z) ∙ ap (λ r. 0 ∷ r) (split_zeros bs))
  | inr n ↦ rw n refl
]
  where
    is_zero : (b : ℕ) → (b == 0) ≡ true → b ≡ 0
    is_zero b z = ground arith

pub leading_ones_lem : (bs : List ℕ) → leading_ones bs ≡ replicate (zeros_of bs) one_char
unfolding leading_ones zeros_of
leading_ones_lem [] = refl
leading_ones_lem (b ∷ bs) = elim (Bool-cases (b == 0)) [
  | inl z ↦ rw z (ap (λ r. one_char ∷ r) (leading_ones_lem bs))
  | inr n ↦ rw n refl
]

abbrev pub StartsNonzero : List ℕ → Type 0
StartsNonzero [] = Unit
StartsNonzero (d ∷ ds) = d ≢ 0

pub strip-StartsNonzero : (bs : List ℕ) → StartsNonzero (strip bs)
unfolding strip
strip-StartsNonzero [] = tt
strip-StartsNonzero (b ∷ bs) = elim (Bool-cases (b == 0)) [
  | inl z ↦ rw z (strip-StartsNonzero bs)
  | inr n ↦ rw n (λ e. ground arith)
]

-- The first digit of a reversed list is the last of the list.
StartsNonzero-append : (xs ys : List ℕ) → xs ≢ [] → StartsNonzero xs → StartsNonzero (xs ++ ys)
StartsNonzero-append [] ys n s = absurd (n refl)
StartsNonzero-append (x ∷ xs) ys n s = s

pub append-ne-nil : (xs : List ℕ) (y : ℕ) → xs ++ y ∷ [] ≢ []
append-ne-nil [] y e = cc
append-ne-nil (x ∷ xs) y e = cc

reverse-ne-nil : (d : ℕ) (ds : List ℕ) → reverse (d ∷ ds) ≢ []
reverse-ne-nil d ds = rw (reverse-append (d ∷ []) ds) (append-ne-nil (reverse ds) d)

pub StartsNonzero-reverse : (ds : List ℕ) → IsTrimmed ds → StartsNonzero (reverse ds)
StartsNonzero-reverse [] t = tt
StartsNonzero-reverse (d ∷ []) t = t
StartsNonzero-reverse (d ∷ e ∷ ds) t = rw (reverse-append (d ∷ []) (e ∷ ds)) (
    StartsNonzero-append (reverse (e ∷ ds)) (d ∷ []) (reverse-ne-nil e ds)
      (StartsNonzero-reverse (e ∷ ds) t))

IsTrimmed-append : (xs : List ℕ) (d : ℕ) → d ≢ 0 → IsTrimmed (xs ++ d ∷ [])
IsTrimmed-append [] d n = n
IsTrimmed-append (x ∷ []) d n = n
IsTrimmed-append (x ∷ y ∷ xs) d n = IsTrimmed-append (y ∷ xs) d n

pub IsTrimmed-reverse : (ds : List ℕ) → StartsNonzero ds → IsTrimmed (reverse ds)
IsTrimmed-reverse [] s = tt
IsTrimmed-reverse (d ∷ ds) s = rw (reverse-append (d ∷ []) ds) (IsTrimmed-append (reverse ds) d s)
