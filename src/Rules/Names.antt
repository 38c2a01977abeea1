-- ===== src/Rules/Names.antt =====
-- The names that internal/economy/rules/config.go derives by hashing: seed, equipmentUID and
-- floorKey, with FNV-1a of hash/fnv over the UTF-8 bytes of the formatted text.
use Prim.Native.Nat.{bit_xor}
use Prim.Native.String.{◌++◌ as text_append}
use aeon_backend.Base.{
  ℕ, zero, suc, ◌+◌, ◌*◌, ◌/◌, ◌%◌, ◌^◌, ltb, nat_eq, if◌then◌else◌, List, [], ◌∷◌, String, ◌==◌,
  text_key,
}
use aeon_backend.Base.Int.{ℤ, pos}
use aeon_backend.Base.Text.{codes, format_int, trim_space}

-- The UTF-8 bytes of a code point, in front of others.
abbrev utf8 : ℕ → List ℕ → List ℕ
utf8 c rest =
    if ltb c 0x80
    then c ∷ rest
    else if ltb c 0x800
    then (0xc0 + c / 64) ∷ (0x80 + c % 64) ∷ rest
    else if ltb c 0x10000
    then (0xe0 + c / 4096) ∷ (0x80 + c / 64 % 64) ∷ (0x80 + c % 64) ∷ rest
    else (0xf0 + c / 262144)
      ∷ (0x80 + c / 4096 % 64)
      ∷ (0x80 + c / 64 % 64)
      ∷ (0x80 + c % 64)
      ∷ rest

utf8_bytes : List ℕ → List ℕ
utf8_bytes [] = []
utf8_bytes (c ∷ cs) = utf8 c (utf8_bytes cs)

fnv_loop : ℕ → List ℕ → ℕ
fnv_loop h [] = h
fnv_loop h (b ∷ bs) = fnv_loop (bit_xor h b * 1099511628211 % 2 ^ 64) bs

-- `fnv.New64a` after a text is written to it.
unfoldable pub fnv64a : String → ℕ
unfolding utf8_bytes fnv_loop
fnv64a s = fnv_loop 14695981039346656037 (utf8_bytes (codes s))

-- Texts joined by colons.
joined : String → List String → String
joined s [] = s
joined s (t ∷ ts) = text_append s (text_append ":" (joined t ts))

-- `seed`
unfoldable pub seed : String → String → ℤ → ℤ → ℤ → ℕ
unfolding fnv64a joined
seed op_id ref_id character_id chapter_id floor_id = fnv64a (
    joined op_id
      (ref_id ∷ format_int character_id ∷ format_int chapter_id ∷ format_int floor_id ∷ []))

hex_digit : ℕ → String
hex_digit d =
    if ltb d 10
    then format_int (pos d)
    else if nat_eq d 10
    then "a"
    else if nat_eq d 11
    then "b"
    else if nat_eq d 12
    then "c"
    else if nat_eq d 13
    then "d"
    else if nat_eq d 14
    then "e"
    else "f"

-- `%016x` of a number below 2 ^ 64, on the number of digits left.
hex_digits : ℕ → ℕ → String
unfolding hex_digit
hex_digits zero n = ""
hex_digits (suc left) n = text_append (hex_digits left (n / 16)) (hex_digit (n % 16))

-- `equipmentUID`
unfoldable pub equipment_uid : String → String → String → ℤ → ℤ → String
unfolding fnv64a joined hex_digits
equipment_uid prefix op_id ref_id entry_index roll_index =
    let hash =
      fnv64a (joined op_id (ref_id ∷ format_int entry_index ∷ format_int roll_index ∷ [])) in
    let name = trim_space prefix in
    text_append (if name == "" then "equipment" else name) (text_append "-" (hex_digits 16 hash))

-- `floorKey`
unfoldable pub floor_key : ℤ → ℤ → String
unfolding joined
floor_key chapter_id floor_id = joined (format_int chapter_id) (format_int floor_id ∷ [])
