-- ===== src/Chain/Tests.antt =====
-- Concrete bytes, amounts and a payment of 5 game units by `alice` to the deposit wallet `bank`.
use mathlib.Core.List.{Memᴰ}
use mathlib.Core.List.Permᴰ
use aeon_backend.Chain.Credits.Fell.{Fell, last_amount}
use aeon_backend.Chain.Credits.Payment.{
  Paid, verify_inbound_payment-Paid, verify_inbound_payment-accepts,
}
use aeon_backend.Base.{
  Bool-cases, inl, inr, ap, sym, ◌∙◌, ◌≢◌, ◌==◌, text_key, nat_key, ne_of_==-false, List, String,
  [], arith, none, ok, refl, some, ℕ, ◌+◌, ◌∷◌, ◌≡◌, ◌<◌,
}
use aeon_backend.Base.Int.{pos, ℤ}
use aeon_backend.Chain.Credits.{TokenBalance, TransactionDetail, verify_inbound_payment}
use aeon_backend.Chain.Amounts.{game_to_raw, raw_to_game}
use aeon_backend.Chain.Base58.{decode_base58, encode_base58}
use aeon_backend.Chain.Amounts.Scale.{raw_to_game-game_to_raw, raw_to_game-panics}
use aeon_backend.Chain.Base58.RoundTrip.{decode_base58-encode_base58}
use aeon_backend.Base.Text.{codes, trim_space}

abbrev sample : List ℕ
sample = 0 ∷ 0 ∷ 255 ∷ 1 ∷ []

encoded_sample : encode_base58 sample ≡ codes "11LQY"
unfolding encode_base58
encoded_sample = refl

decode_base58-encode_base58_example : decode_base58 (encode_base58 sample) ≡ ok sample
decode_base58-encode_base58_example =
    decode_base58-encode_base58 sample
      (omega arith, (omega arith, (omega arith, (omega arith, tt)))) (λ e. cc)

five_units : game_to_raw (pos 5) (pos 6) ≡ ok 5000000
unfolding game_to_raw
five_units = refl

raw_to_game-game_to_raw_example : raw_to_game 5000000 (pos 6) ≡ some (pos 5)
raw_to_game-game_to_raw_example =
    raw_to_game-game_to_raw (pos 5) (pos 6) 5000000 (omega arith, omega arith) five_units

raw_to_game-panics_example : raw_to_game 7 (pos (64 + 3)) ≡ none
raw_to_game-panics_example = raw_to_game-panics 7 3

abbrev balance : ℤ → String → ℕ → TokenBalance
balance index owner amount = record {
  account_index = index;
  mint = "AEB";
  owner = owner;
  amount = amount;
  decimals = pos 6;
  ui_token_amount = "";
}

abbrev payment : TransactionDetail
payment = record {
  signature = "sig";
  slot = 9;
  pre_token_balances = balance (pos 1) "alice" 8000000 ∷ balance (pos 2) "bank" 100 ∷ [];
  post_token_balances = balance (pos 1) "alice" 3000000 ∷ balance (pos 2) "bank" 5000100 ∷ [];
}

payment_accepted :
    verify_inbound_payment (λ m. m) (some payment) "bank" "AEB" "alice" (pos 5) (pos 6) ≡ ok tt
unfolding verify_inbound_payment
payment_accepted = refl

paid_accepted :
    verify_inbound_payment (λ m. m) (some payment) " bank" "AEB" "alice" (pos 5) (pos 6) ≡ ok tt
unfolding verify_inbound_payment trim_space
paid_accepted = refl

verify_inbound_payment-Paid_example :
    (need : ℕ) × ((game_to_raw (pos 5) (pos 6) ≡ ok need)
      × Paid payment (trim_space " bank") (trim_space "AEB") (trim_space "alice") need)
unfolding trim_space
verify_inbound_payment-Paid_example =
    verify_inbound_payment-Paid (λ m. m) payment " bank" "AEB" "alice" (pos 5) (pos 6) Permᴰ.refl
      (ne_of_==-false (trim_space " bank") "" refl) (ne_of_==-false (trim_space "AEB") "" refl)
      (ne_of_==-false (trim_space "alice") "" refl) paid_accepted

-- Only the balance of `alice` fell.
only_alice : (owner : String) → owner ≢ "bank" → Fell payment "AEB" owner → owner ≡ "alice"
unfolding last_amount
only_alice owner other (inl (row, (Memᴰ.head e, (of, low)))) =
    sym of.0 ∙ ap (λ (r : TokenBalance). r.owner) e
only_alice owner other (inl (row, (Memᴰ.tail (Memᴰ.head e), (of, low)))) =
    absurd (other (sym of.0 ∙ ap (λ (r : TokenBalance). r.owner) e))
only_alice owner other (inl (row, (Memᴰ.tail (Memᴰ.tail m), p))) = elim m [ ]
only_alice owner other (inr (positive, gone)) = elim (Bool-cases ("alice" == owner)) [
  | inl a ↦ sym ((text_key.agrees "alice" owner).0 a)
  | inr a ↦ elim (Bool-cases ("bank" == owner)) [
    | inl b ↦ absurd (other (sym ((text_key.agrees "bank" owner).0 b)))
    | inr b ↦ absurd (nothing (rw (last_amount, a, b) at positive))
  ]
]
  where
    nothing : 0 < 0 → ⊥
    nothing p = omega arith

verify_inbound_payment-accepts_example :
    verify_inbound_payment (λ m. m) (some payment) " bank" "AEB" "alice" (pos 5) (pos 6) ≡ ok tt
unfolding trim_space last_amount
verify_inbound_payment-accepts_example =
    verify_inbound_payment-accepts (λ m. m) payment " bank" "AEB" "alice" (pos 5) (pos 6) 5000000
      (balance (pos 2) "bank" 5000100) Permᴰ.refl (ne_of_==-false (trim_space " bank") "" refl)
      (ne_of_==-false (trim_space "AEB") "" refl) (ne_of_==-false (trim_space "alice") "" refl)
      five_units (Memᴰ.tail (Memᴰ.head refl)) (refl, refl) (omega arith) (omega arith) only_alice

-- An owner with two token accounts of the mint: an untouched account counts as a credit, since the
-- balance kept for the owner is the last one listed.
abbrev unrelated : TransactionDetail
unrelated = record {
  signature = "sig";
  slot = 9;
  pre_token_balances = balance (pos 1) "bank" 5000000 ∷ balance (pos 2) "bank" 0 ∷ [];
  post_token_balances = balance (pos 1) "bank" 5000000 ∷ balance (pos 2) "bank" 0 ∷ [];
}

unrelated_accepted :
    verify_inbound_payment (λ m. m) (some unrelated) "bank" "AEB" "alice" (pos 5) (pos 6) ≡ ok tt
unfolding verify_inbound_payment
unrelated_accepted = refl
