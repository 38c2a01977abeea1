-- ===== src/Rules/Outcome.antt =====
-- What a call of the rules does: it returns, fails with an error, or panics. An error is named by the
-- fixed text of its message: the values that `fmt.Errorf` puts in are left out.
use aeon_backend.Base.{String, Option, none, some, Bool, true, false, ◌≡◌, refl}

pub data Outcome {ℓ} (V : Type ℓ) : Type ℓ where
  panicked : Outcome V
  failed : String → Outcome V
  returned : V → Outcome V

infixl 5 ◌>>=◌
abbrev pub ◌>>=◌ {ℓ κ} : {V : Type ℓ} {W : Type κ} → Outcome V → (V → Outcome W) → Outcome W
panicked >>= rest = panicked
failed why >>= rest = failed why
returned value >>= rest = rest value

-- `if !test { return ..., why }`
abbrev pub check {ℓ} : {W : Type ℓ} → Bool → String → Outcome W → Outcome W
check true why rest = rest
check false why rest = failed why

abbrev pub found_or {ℓ} : {V : Type ℓ} → Option V → String → Outcome V
found_or none why = failed why
found_or (some value) why = returned value

-- What a call that returned was put together from.
pub >>=-returned {ℓ κ} :
    {V : Type ℓ} {W : Type κ} (m : Outcome V) (f : V → Outcome W) {w : W}
    → (m >>= f) ≡ returned w
    → (v : V) × (m ≡ returned v) × (f v ≡ returned w)
>>=-returned panicked f h = cc
>>=-returned (failed why) f h = cc
>>=-returned (returned v) f h = (v, refl, h)

pub check-returned {ℓ} :
    {W : Type ℓ} (test : Bool) (why : String) (rest : Outcome W) {w : W}
    → check test why rest ≡ returned w
    → (test ≡ true) × (rest ≡ returned w)
check-returned true why rest h = (refl, h)
check-returned false why rest h = cc

-- The call returns a value.
abbrev pub Gives {ℓ} : {V : Type ℓ} → Outcome V → Type ℓ
Gives {V} m = (v : V) × (m ≡ returned v)

pub Gives-bind {ℓ κ} :
    {V : Type ℓ} {W : Type κ} (m : Outcome V) (f : V → Outcome W)
    → Gives m
    → ((v : V) → m ≡ returned v → Gives (f v))
    → Gives (m >>= f)
Gives-bind panicked f h k = cc (h.1)
Gives-bind (failed why) f h k = cc (h.1)
Gives-bind (returned v) f h k = k v refl
