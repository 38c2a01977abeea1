-- ===== src/Chain/Base58.antt =====
-- `DecodeBase58` and `EncodeBase58` of internal/chain/solana.go, on lists of code points and of
-- bytes. `big.Int` is ℕ; its `SetBytes` and `Bytes` are big-endian with no leading zero byte.
pub mod Symbols
pub mod Zeros
pub mod RoundTrip
use mathlib.Core.List.{reverse}
use mathlib.Core.Option
use aeon_backend.Base.{
  ℕ, Error, List, Option, Result, [], err, if◌then◌else◌, map, message, none, ok, refl, some, suc,
  zero, ◌*◌, ◌++◌, ◌+◌, ◌==◌, ◌>>=◌, ◌∷◌, ◌≡◌, nat_key,
}
use aeon_backend.Base.Codes.{trim_codes}
use aeon_backend.Base.Digits.{digits, fold_be}
use aeon_backend.Base.Text.{codes}

-- `solanaBase58Alphabet`
abbrev pub alphabet : List ℕ
alphabet = codes "123456789ABCDEFGHJKLMNPQRSTUVWXYZabcdefghijkmnopqrstuvwxyz"

abbrev pub one_char : ℕ
one_char = b'1'

-- `strings.IndexRune`, and the indexing `solanaBase58Alphabet[i]`.
unfoldable pub index_rune : ℕ → List ℕ → Option ℕ
index_rune c [] = none
index_rune c (d ∷ ds) = if d == c then some 0 else Option.map suc (index_rune c ds)

unfoldable pub char_at : ℕ → List ℕ → ℕ
char_at i [] = 0
char_at zero (c ∷ cs) = c
char_at (suc i) (c ∷ cs) = char_at i cs

-- `big.Int.SetBytes` and `big.Int.Bytes`
unfoldable pub set_bytes : List ℕ → ℕ
unfolding fold_be
set_bytes input = fold_be 256 0 input

unfoldable pub bytes_of : ℕ → List ℕ
unfolding digits
bytes_of n = reverse (digits 256 n)

-- The first loop of `DecodeBase58`.
unfoldable pub decode_loop : ℕ → List ℕ → Result ℕ
decode_loop acc [] = ok acc
decode_loop acc (c ∷ cs) = elim (index_rune c alphabet) [
  | none ↦ err (Error.message "base58 value contains invalid character")
  | some i ↦ decode_loop (acc * 58 + i) cs
]

-- Its second loop: a zero byte in front for each leading `1`.
unfoldable pub pad_zeros : List ℕ → List ℕ → List ℕ
pad_zeros [] decoded = decoded
pad_zeros (c ∷ cs) decoded = if c == one_char then pad_zeros cs (0 ∷ decoded) else decoded

-- The body of `DecodeBase58` once the text is trimmed.
unfoldable pub decode_value : List ℕ → Result (List ℕ)
unfolding decode_loop pad_zeros bytes_of
decode_value [] = err (Error.message "base58 value is required")
decode_value (c ∷ cs) = decode_loop 0 (c ∷ cs) >>= λ n. ok (pad_zeros (c ∷ cs) (bytes_of n))

unfoldable pub decode_base58 : List ℕ → Result (List ℕ)
unfolding decode_value trim_codes index_rune
decode_base58 raw = decode_value (trim_codes raw)

-- The second loop of `EncodeBase58`: a `1` for each leading zero byte.
unfoldable pub leading_ones : List ℕ → List ℕ
leading_ones [] = []
leading_ones (b ∷ bs) = if b == 0 then one_char ∷ leading_ones bs else []

-- The last loop swaps the ends until they meet: it reverses.
unfoldable pub encode_base58 : List ℕ → List ℕ
unfolding digits set_bytes char_at leading_ones
encode_base58 [] = []
encode_base58 (b ∷ bs) =
    reverse
      (map (λ d. char_at d alphabet) (digits 58 (set_bytes (b ∷ bs))) ++ leading_ones (b ∷ bs))
