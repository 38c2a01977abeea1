-- ===== src/Base/Text.antt =====
-- Texts: the codes of a text, and Go's `strings.TrimSpace`.
use Prim.Native.Nat.{ℕ, zero, suc, ◌-◌, ◌/◌, ◌%◌, ◌^◌}
use Prim.Native.Char.{Char, code}
use Prim.Native.String.{String, ◌++◌}
use mathlib.Core.Bool.{Bool, ◌&&◌, ◌||◌}
use aeon_backend.Base.Tests.{ltb, leb, nat_eq, if◌then◌else◌}
use aeon_backend.Base.Int.{ℤ, pos, negsuc}
use aeon_backend.Base.{List, [], ◌∷◌, ◌∷◌}

-- `unicode.IsSpace`
unfoldable pub is_space : ℕ → Bool
is_space c =
    (leb 9 c && leb c 13)
    || nat_eq c 32
    || nat_eq c 0x85
    || nat_eq c 0xa0
    || nat_eq c 0x1680
    || (leb 0x2000 c && leb c 0x200a)
    || nat_eq c 0x2028
    || nat_eq c 0x2029
    || nat_eq c 0x202f
    || nat_eq c 0x205f
    || nat_eq c 0x3000

trim_left : String → String
unfolding is_space
trim_left String.[] = ""
trim_left (String.◌∷◌ c s) = if is_space (code c) then trim_left s else String.◌∷◌ c s

-- Drops the spaces behind the last character that is none.
trim_right : String → String
unfolding is_space
trim_right String.[] = ""
trim_right (String.◌∷◌ c s) = keep c (trim_right s)
  where
    keep : Char → String → String
    keep c String.[] = if is_space (code c) then "" else String.◌∷◌ c ""
    keep c (String.◌∷◌ d r) = String.◌∷◌ c (String.◌∷◌ d r)

unfoldable pub trim_space : String → String
unfolding trim_left trim_right
trim_space s = trim_right (trim_left s)

abbrev digit : ℕ → String
digit d =
    if nat_eq d 0
    then "0"
    else if nat_eq d 1
    then "1"
    else if nat_eq d 2
    then "2"
    else if nat_eq d 3
    then "3"
    else if nat_eq d 4
    then "4"
    else if nat_eq d 5
    then "5"
    else if nat_eq d 6
    then "6"
    else if nat_eq d 7
    then "7"
    else if nat_eq d 8
    then "8"
    else "9"

decimal_fuel : ℕ → ℕ → String
decimal_fuel zero n = ""
decimal_fuel (suc f) n =
    let rest = decimal_fuel f (n / 10) in if ltb n 10 then digit n else rest ++ digit (n % 10)

-- `strconv.FormatInt(a, 10)` of the int64 with this bit pattern: at most 20 digits.
unfoldable pub format_id : ℕ → String
unfolding decimal_fuel
format_id a = if ltb a (2 ^ 63) then decimal_fuel 20 a else "-" ++ decimal_fuel 20 (2 ^ 64 - a)

-- The same of an int64 that is kept as an integer.
unfoldable pub format_int : ℤ → String
unfolding decimal_fuel
format_int (pos n) = decimal_fuel 20 n
format_int (negsuc n) = "-" ++ decimal_fuel 20 (suc n)

-- The code points of a text.
abbrev pub codes : String → List ℕ
codes String.[] = []
codes (String.◌∷◌ c s) = code c ∷ codes s
