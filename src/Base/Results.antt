-- ===== src/Base/Results.antt =====
-- What a fallible call returns: a value, or one of the errors that the callers tell apart.
use Prim.Native.String.{String}
use mathlib.Core.Bool.{Bool, true, false}
use mathlib.Core.Option.{Option, none, some}

-- `ErrNotFound`, `ErrForbidden`, `ErrInsufficientBalance`, and `errors.New` with its text.
pub data Error : Type 0 where
  not_found forbidden insufficient_balance : Error
  message : String → Error

pub data Result {ℓ} (V : Type ℓ) : Type ℓ where
  err : Error → Result V
  ok : V → Result V

abbrev pub ◌>>=◌ {ℓ κ} : {V : Type ℓ} {W : Type κ} → Result V → (V → Result W) → Result W
err why >>= rest = err why
ok value >>= rest = rest value

-- `if !test { return ..., why }`
abbrev pub guard : Bool → Error → Result (Unit {0})
guard false why = err why
guard true why = ok tt

abbrev pub ◌>>◌ {ℓ} : {W : Type ℓ} → Result (Unit {0}) → Result W → Result W
first >> rest = first >>= λ done. rest

infixl 5 ◌>>=◌ ◌>>◌
abbrev pub or_fail {ℓ} : {V : Type ℓ} → Option V → Error → Result V
or_fail (some value) why = ok value
or_fail none why = err why
