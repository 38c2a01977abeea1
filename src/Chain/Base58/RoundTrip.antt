-- ===== src/Chain/Base58/RoundTrip.antt =====
-- Decoding what `EncodeBase58` gives returns the bytes.
use mathlib.Core.Path.{ap₂}
use mathlib.Core.List.{reverse, reverse-append, reverse-reverse, map-append}
use aeon_backend.Base.{
  ℕ, All, List, [], arith, false, map, ok, refl, replicate, suc, zero, ◌++◌, ◌<◌, ◌==◌, ◌∷◌, ◌≡◌,
  ◌≢◌, nat_key, ==-false_of_ne, Bool-cases, ap, inl, inr, ◌∙◌, sym,
}
use aeon_backend.Chain.Base58.{
  char_at, decode_loop, leading_ones, one_char, pad_zeros, bytes_of, encode_base58, set_bytes,
  decode_base58, decode_value,
}
use aeon_backend.Base.Text.{is_space}
use aeon_backend.Base.Digits.{
  fold_be, digits, digits-from_digits, fold_be-reverse, fold_be-zeros, from_digits, digits_small,
  from_digits-digits, digits-IsTrimmed, digits_fuel,
}
use aeon_backend.Base.Reversal.{
  All-reverse, map-reverse, replicate_push, reverse-replicate, All-append, All-replicate,
  map-replicate, All-map_of,
}
use aeon_backend.Base.Codes.{trim_codes-id, trim_codes}
use aeon_backend.Chain.Base58.Zeros.{
  IsTrimmed-reverse, StartsNonzero, StartsNonzero-reverse, leading_ones_lem, split_zeros, strip,
  strip-StartsNonzero, zeros_of,
}
use aeon_backend.Chain.Base58.Symbols.{decode_loop-map, symbol, symbol_no_space, symbol_one}

-- The padding loop: a zero for each leading `1`, and no more.
pad_zeros-cons :
    (n : ℕ) (ds bytes : List ℕ)
    → All (λ d. d < 58) ds
    → StartsNonzero ds
    → pad_zeros (replicate n one_char ++ map symbol ds) bytes ≡ replicate n 0 ++ bytes
unfolding pad_zeros
pad_zeros-cons zero [] bytes s n = refl
pad_zeros-cons zero (d ∷ ds) bytes s n =
    rw (==-false_of_ne (symbol d) one_char (λ e. n (symbol_one d s.0 e)))
pad_zeros-cons (suc k) ds bytes s n = pad_zeros-cons k ds (0 ∷ bytes) s n ∙ replicate_push k 0 bytes

-- The bytes of a number that bytes stand for, up to leading zeros.
set_bytes-strip : (bs : List ℕ) → set_bytes bs ≡ from_digits 256 (reverse (strip bs))
set_bytes-strip bs =
    opened bs
    ∙ ap (fold_be 256 0) (split_zeros bs)
    ∙ fold_be-zeros 256 (zeros_of bs) (strip bs)
    ∙ ap (fold_be 256 0) (sym (reverse-reverse (strip bs)))
    ∙ fold_be-reverse 256 (reverse (strip bs))
  where
    opened : (bs : List ℕ) → set_bytes bs ≡ fold_be 256 0 bs
    opened bs = unfold set_bytes in refl

strip-All : (bs : List ℕ) → All (λ b. b < 256) bs → All (λ b. b < 256) (strip bs)
unfolding strip
strip-All [] h = tt
strip-All (b ∷ bs) h = elim (Bool-cases (b == 0)) [
  | inl z ↦ rw z (strip-All bs h.1)
  | inr n ↦ rw n h
]

bytes_of-set_bytes : (bs : List ℕ) → All (λ b. b < 256) bs → bytes_of (set_bytes bs) ≡ strip bs
bytes_of-set_bytes bs h =
    ap bytes_of (set_bytes-strip bs)
    ∙ opened (from_digits 256 (reverse (strip bs)))
    ∙ ap reverse (
        digits-from_digits 256 (omega arith) (reverse (strip bs))
          (All-reverse _ (strip bs) (strip-All bs h))
          (IsTrimmed-reverse (strip bs) (strip-StartsNonzero bs)))
    ∙ reverse-reverse (strip bs)
  where
    opened : (n : ℕ) → bytes_of n ≡ reverse (digits 256 n)
    opened n = unfold bytes_of in refl

-- The text that encodes the bytes: ones, then the symbols of the digits, the greatest first.
abbrev digits_be : List ℕ → List ℕ
digits_be bs = reverse (digits 58 (set_bytes bs))

encoded_lem :
    (bs : List ℕ)
    → bs ≢ []
    → encode_base58 bs ≡ replicate (zeros_of bs) one_char ++ map symbol (digits_be bs)
encoded_lem [] n = absurd (n refl)
encoded_lem (b ∷ bs) n =
    opened b bs
    ∙ reverse-append (map symbol (digits 58 (set_bytes (b ∷ bs)))) (leading_ones (b ∷ bs))
    ∙ ap₂ (λ x y. x ++ y)
        (ap reverse (leading_ones_lem (b ∷ bs)) ∙ reverse-replicate (zeros_of (b ∷ bs)) one_char)
        (sym (map-reverse symbol (digits 58 (set_bytes (b ∷ bs)))))
  where
    opened :
        (b : ℕ) (bs : List ℕ)
        → encode_base58 (b ∷ bs)
          ≡ reverse (map symbol (digits 58 (set_bytes (b ∷ bs))) ++ leading_ones (b ∷ bs))
    opened b bs = unfold encode_base58 in refl

-- The decoder on a text that is not empty and has no space in it.
decode_value-text :
    (s : List ℕ) (n : ℕ)
    → s ≢ []
    → decode_loop 0 s ≡ ok n
    → decode_value s ≡ ok (pad_zeros s (bytes_of n))
unfolding decode_value pad_zeros
decode_value-text [] n filled e = absurd (filled refl)
decode_value-text (c ∷ cs) n filled e = rw (decode_value, e) refl

decode_base58-text :
    (s : List ℕ) (n : ℕ)
    → s ≢ []
    → All (λ x. is_space x ≡ false) s
    → decode_loop 0 s ≡ ok n
    → decode_base58 s ≡ ok (pad_zeros s (bytes_of n))
decode_base58-text s n filled clean e =
    opened s ∙ ap decode_value (trim_codes-id s clean) ∙ decode_value-text s n filled e
  where
    opened : (s : List ℕ) → decode_base58 s ≡ decode_value (trim_codes s)
    opened s = unfold decode_base58 in refl

-- The encoded text as the symbols of its values.
abbrev values : List ℕ → List ℕ
values bs = replicate (zeros_of bs) 0 ++ digits_be bs

encoded-values : (bs : List ℕ) → bs ≢ [] → encode_base58 bs ≡ map symbol (values bs)
unfolding char_at
encoded-values bs n =
    encoded_lem bs n
    ∙ ap (λ r. r ++ map symbol (digits_be bs)) (sym (map-replicate symbol (zeros_of bs) 0))
    ∙ sym (map-append symbol (replicate (zeros_of bs) 0) (digits_be bs))

digits_be_small : (bs : List ℕ) → All (λ d. d < 58) (digits_be bs)
digits_be_small bs = All-reverse _ _ (digits_small 58 (omega arith) (set_bytes bs))

values_small : (bs : List ℕ) → All (λ d. d < 58) (values bs)
values_small bs =
    All-append _ (replicate (zeros_of bs) 0) (digits_be bs)
      (All-replicate _ (zeros_of bs) 0 (omega arith)) (digits_be_small bs)

-- The values stand for the number of the bytes.
values-number : (bs : List ℕ) → fold_be 58 0 (values bs) ≡ set_bytes bs
values-number bs =
    fold_be-zeros 58 (zeros_of bs) (digits_be bs)
    ∙ fold_be-reverse 58 (digits 58 (set_bytes bs))
    ∙ from_digits-digits 58 (omega arith) (set_bytes bs)

map-ne-nil : (ds : List ℕ) → ds ≢ [] → map symbol ds ≢ []
map-ne-nil [] n = absurd (n refl)
map-ne-nil (d ∷ ds) n = λ e. cc

zeros_replicate : (z : ℕ) (ds : List ℕ) → replicate z 0 ++ ds ≡ [] → replicate {A = ℕ} z 0 ≡ []
zeros_replicate zero ds e = refl
zeros_replicate (suc z) ds e = absurd (cc)

-- Bytes have values: were there none, they would stand for zero, and be no bytes.
values-ne-nil : (bs : List ℕ) → All (λ b. b < 256) bs → bs ≢ [] → values bs ≢ []
values-ne-nil bs h n e = n (
    split_zeros bs
    ∙ ap₂ (λ x y. x ++ y) (zeros_replicate (zeros_of bs) (digits_be bs) e)
        (sym (bytes_of-set_bytes bs h)
          ∙ ap bytes_of (sym (values-number bs) ∙ ap (fold_be 58 0) e ∙ no_digits)
          ∙ no_bytes))
  where
    no_digits : fold_be 58 0 [] ≡ 0
    no_digits = unfold fold_be in refl

    no_bytes : bytes_of 0 ≡ []
    no_bytes = unfold bytes_of in unfold digits_fuel in refl

padded :
    (bs : List ℕ) → All (λ b. b < 256) bs → bs ≢ [] → pad_zeros (encode_base58 bs) (strip bs) ≡ bs
padded bs h n =
    ap (λ s. pad_zeros s (strip bs)) (encoded_lem bs n)
    ∙ pad_zeros-cons (zeros_of bs) (digits_be bs) (strip bs) (digits_be_small bs) (
        StartsNonzero-reverse (digits 58 (set_bytes bs))
          (digits-IsTrimmed 58 (omega arith) (set_bytes bs)))
    ∙ sym (split_zeros bs)

-- Decoding the Base58 text that encodes a list of bytes, not empty, returns exactly those
-- bytes, leading zero bytes included.
pub decode_base58-encode_base58 :
    (bs : List ℕ) → All (λ b. b < 256) bs → bs ≢ [] → decode_base58 (encode_base58 bs) ≡ ok bs
decode_base58-encode_base58 bs h n =
    decode_base58-text (encode_base58 bs) (set_bytes bs) filled clean number
    ∙ ap ok (ap (pad_zeros (encode_base58 bs)) (bytes_of-set_bytes bs h) ∙ padded bs h n)
  where
    as_values : encode_base58 bs ≡ map symbol (values bs)
    as_values = encoded-values bs n

    filled : encode_base58 bs ≢ []
    filled = λ e. map-ne-nil (values bs) (values-ne-nil bs h n) (sym as_values ∙ e)

    clean : All (λ x. is_space x ≡ false) (encode_base58 bs)
    clean = rw as_values (
        All-map_of symbol (λ d. d < 58) (λ x. is_space x ≡ false) symbol_no_space (values bs)
          (values_small bs))

    number : decode_loop 0 (encode_base58 bs) ≡ ok (set_bytes bs)
    number =
        ap (decode_loop 0) as_values
        ∙ decode_loop-map 0 (values bs) (values_small bs)
        ∙ ap ok (values-number bs)
