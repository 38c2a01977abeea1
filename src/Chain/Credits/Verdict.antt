-- ===== src/Chain/Credits/Verdict.antt =====
-- The verdict on a payment, row by row.
use aeon_backend.Base.{
  Bool, List, String, [], ap, arith, false, not, refl, text_key, true, ℕ, ◌==◌, ◌↔◌, ◌∙◌, ◌∷◌, ◌≡◌,
  Error, Result, guard, length, ok, some, sym, ◌>>=◌, ◌>>◌, nat_key, err,
}
use aeon_backend.Chain.Credits.{
  TokenBalance, TokenCredit, TransactionDetail, Visit, any_pays, credit_rows, owner_mint,
  pre_amounts, verify_inbound_payment, inbound_token_credits, mismatch,
}
use aeon_backend.Chain.Amounts.{game_to_raw}
use aeon_backend.Base.Int.{ℤ}
use aeon_backend.Base.Text.{trim_space}
use mathlib.Core.List.{Memᴰ}
use aeon_backend.Chain.Credits.Supports.{
  SomeRow, SomeRow-any_row, Supports, any_pays-credit_rows, any_row, any_row-SomeRow,
}

any_pays-filled :
    (need : ℕ) (payer : String) (credits : List TokenCredit)
    → any_pays need payer credits ≡ true
    → not (length credits == 0) ≡ true
unfolding any_pays
any_pays-filled need payer [] h = cc
any_pays-filled need payer (c ∷ cs) h = ground arith

-- The three steps of the verification: the second test implies the first.
verdict_iff :
    (b : Bool) (need : Result ℕ) (p : ℕ → Bool) (e f : Error)
    → ((n : ℕ) → p n ≡ true → b ≡ true)
    → ((guard b e >> need >>= λ n. guard (p n) f) ≡ ok tt)
      ↔ ((n : ℕ) × ((need ≡ ok n) × (p n ≡ true)))
verdict_iff false need p e f filled = (λ h. cc, λ h. absurd (cc (filled h.0 h.1.1)))
verdict_iff true (err x) p e f filled = (λ h. cc, λ h. cc h.1.0)
verdict_iff true (ok n) p e f filled =
    (λ h. (n, (refl, passed (p n) h)), λ h. ap (λ b. guard b f) (ap p (same h.0 h.1.0) ∙ h.1.1))
  where
    passed : (b : Bool) → guard b f ≡ ok tt → b ≡ true
    passed true h = refl
    passed false h = cc

    same : (m : ℕ) → ok n ≡ ok m → n ≡ m
    same m h = cc h

-- The loops read as one row that supports the payment, by the code's own prior amount and payer.
pub verify_inbound_payment_iff :
    (visit : Visit) (tx : TransactionDetail) (deposit mint payer : String) (min_game decimals : ℤ)
    → (verify_inbound_payment visit (some tx) deposit mint payer min_game decimals ≡ ok tt) ↔ (
        (need : ℕ) × ((game_to_raw min_game decimals ≡ ok need)
          × ((row : TokenBalance) × (Memᴰ row tx.post_token_balances
                × Supports visit tx
                    (trim_space deposit)
                    (trim_space mint)
                    need
                    (trim_space payer)
                    row))))
verify_inbound_payment_iff visit tx deposit mint payer min_game decimals =
    let credits = inbound_token_credits visit (some tx) deposit mint in
    let steps =
      verdict_iff (not (length credits == 0)) (game_to_raw min_game decimals)
        (λ n. any_pays n (trim_space payer) credits)
        (Error.message "transaction has no inbound token transfer to deposit wallet")
        (mismatch min_game) (λ n. any_pays-filled n (trim_space payer) credits) in
    (
      λ h.
          let (n, (e, p)) = steps.0 (sym verdict ∙ h) in
          (
            n,
            (
              e,
              unfold SomeRow in
                  any_row-SomeRow visit tx (trim_space deposit) (trim_space mint) n
                    (trim_space payer) tx.post_token_balances (sym (rows n) ∙ p),
            ),
          ),
      λ h.
          let (n, (e, (row, (m, p)))) = h in
          verdict
          ∙ steps.1 (
            n,
            (
              e,
              rows n
                  ∙ SomeRow-any_row visit tx (trim_space deposit) (trim_space mint) n
                      (trim_space payer) tx.post_token_balances row m p,
            ),
          ),
    )
  where
    verdict : verify_inbound_payment visit (some tx) deposit mint payer min_game decimals ≡ (
        guard
          (not (length (inbound_token_credits visit (some tx) deposit mint) == 0))
          (Error.message "transaction has no inbound token transfer to deposit wallet")
        >> game_to_raw min_game decimals
        >>= λ need.
            guard
              (any_pays need
                (trim_space payer)
                (inbound_token_credits visit (some tx) deposit mint))
              (mismatch min_game))
    verdict = unfold verify_inbound_payment in refl

    opened :
        (n : ℕ)
        → any_pays n (trim_space payer) (inbound_token_credits visit (some tx) deposit mint)
          ≡ any_pays n (trim_space payer) (
              credit_rows visit tx
                (trim_space deposit)
                (trim_space mint)
                (pre_amounts owner_mint (trim_space mint) [] tx.pre_token_balances)
                tx.post_token_balances)
    opened n = unfold inbound_token_credits in refl

    rows :
        (n : ℕ)
        → any_pays n (trim_space payer) (inbound_token_credits visit (some tx) deposit mint)
          ≡ any_row visit tx
              (trim_space deposit)
              (trim_space mint)
              n
              (trim_space payer)
              tx.post_token_balances
    rows n =
        opened n
        ∙ any_pays-credit_rows visit tx (trim_space deposit) (trim_space mint) n (trim_space payer)
            tx.post_token_balances
