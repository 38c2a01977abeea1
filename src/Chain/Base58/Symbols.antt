-- ===== src/Chain/Base58/Symbols.antt =====
-- The symbols of the alphabet, and the decoder's loop on them.
use aeon_backend.Base.{
  All, Bool, List, Option, [], arith, false, map, none, not, ok, refl, some, suc, true, zero, ℕ,
  ◌&&◌, ◌*◌, ◌+◌, ◌<◌, ◌==◌, ◌||◌, ◌∷◌, ◌≡◌, nat_key,
}
use aeon_backend.Chain.Base58.{alphabet, char_at, decode_loop, index_rune, one_char}
use aeon_backend.Base.Text.{is_space}
use aeon_backend.Base.Digits.{fold_be}

-- Tables over the alphabet.
checked : (ℕ → Bool) → ℕ → Bool
checked test zero = true
checked test (suc k) = checked test k && test k

checked_lem : (test : ℕ → Bool) (k d : ℕ) → d < k → checked test k ≡ true → test d ≡ true
unfolding checked
checked_lem test zero d small all = absurd (omega arith)
checked_lem test (suc k) d small all = ground (arith, checked_lem test k d)

abbrev pub symbol : ℕ → ℕ
symbol d = char_at d alphabet

abbrev is_index : ℕ → ℕ → Bool
is_index d i = d == i

found : Option ℕ → ℕ → Bool
found none d = false
found (some i) d = i == d

index_table : checked (λ d. found (index_rune (symbol d) alphabet) d) 58 ≡ true
unfolding checked index_rune char_at found
index_table = refl

space_table : checked (λ d. not (is_space (symbol d))) 58 ≡ true
unfolding checked is_space char_at
space_table = refl

one_table : checked (λ d. not (symbol d == one_char) || d == 0) 58 ≡ true
unfolding checked char_at
one_table = refl

pub index_rune-symbol : (d : ℕ) → d < 58 → index_rune (symbol d) alphabet ≡ some d
index_rune-symbol d h = of_found (index_rune (symbol d) alphabet) (checked_lem _ 58 d h index_table)
  where
    of_found : (o : Option ℕ) → found o d ≡ true → o ≡ some d
    of_found o e = unfold found in ground arith

pub symbol_no_space : (d : ℕ) → d < 58 → is_space (symbol d) ≡ false
symbol_no_space d h = negated (is_space (symbol d)) (checked_lem _ 58 d h space_table)
  where
    negated : (b : Bool) → not b ≡ true → b ≡ false
    negated b e = ground arith

pub symbol_one : (d : ℕ) → d < 58 → symbol d ≡ one_char → d ≡ 0
symbol_one d h e = negated (checked_lem _ 58 d h one_table)
  where
    negated : (not (symbol d == one_char) || d == 0) ≡ true → d ≡ 0
    negated p = ground arith

-- The loop of the decoder reads symbols as it would read their values.
pub decode_loop-map :
    (acc : ℕ) (ds : List ℕ)
    → All (λ d. d < 58) ds
    → decode_loop acc (map symbol ds) ≡ ok (fold_be 58 acc ds)
unfolding decode_loop fold_be
decode_loop-map acc [] h = refl
decode_loop-map acc (d ∷ ds) h =
    rw (index_rune-symbol d h.0, decode_loop) (decode_loop-map (acc * 58 + d) ds h.1)
