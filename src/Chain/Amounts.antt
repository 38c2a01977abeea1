-- ===== src/Chain/Amounts.antt =====
-- Game units and raw token units: `GameToRawAmount` of internal/chain/payout.go and
-- `RawToGameAmount` of internal/chain/rpc.go. A `big.Int` is ℕ here, since the amount is positive
-- where one is made; a uint64 is a number below 2 ^ 64.
pub mod Scale
use aeon_backend.Base.{
  Error, Option, Result, err, if◌then◌else◌, ltb, message, none, ok, some, suc, zero, ℕ, ◌%◌, ◌*◌,
  ◌/◌, ◌==◌, ◌^◌, ◌||◌, nat_key,
}
use aeon_backend.Base.Int.{leb_ℤ, ltb_ℤ, pos, pos_part, wrap64, ℤ}

-- `GameToRawAmount`
unfoldable pub game_to_raw : ℤ → ℤ → Result ℕ
game_to_raw amount decimals =
    if leb_ℤ amount (pos 0)
    then err (Error.message "amount must be positive")
    else if ltb_ℤ decimals (pos 0) || ltb_ℤ (pos 18) decimals
    then err (Error.message "decimals out of range")
    else if ltb (pos_part amount * 10 ^ pos_part decimals) (2 ^ 64)
    then ok (pos_part amount * 10 ^ pos_part decimals)
    else err (Error.message "amount overflows uint64 raw units")

-- The loop `for i := 0; i < decimals; i++ { div *= 10 }` of `RawToGameAmount`, on uint64.
unfoldable pub scale_loop : ℕ → ℕ → ℕ
scale_loop zero div = div
scale_loop (suc i) div = scale_loop i (div * 10 % 2 ^ 64)

-- `RawToGameAmount`: nothing is returned where the division by zero panics.
unfoldable pub raw_to_game : ℕ → ℤ → Option ℤ
unfolding scale_loop
raw_to_game raw decimals =
    if leb_ℤ decimals (pos 0)
    then some (wrap64 (pos raw))
    else let div = scale_loop (pos_part decimals) 1 in
      if div == 0 then none else some (wrap64 (pos (raw / div)))
