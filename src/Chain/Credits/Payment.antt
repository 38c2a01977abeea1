-- ===== src/Chain/Credits/Payment.antt =====
-- What an accepted payment shows of the balances before and after the transaction.
use mathlib.Core.List.{Memᴰ, Permᴰ}
use text.Mathlib.TextLemmas.{append_cancel_right}
use Prim.Native.String.{◌++◌ as ◌⧺◌}
use aeon_backend.Base.{
  Bool-cases, String, [], ap, arith, inl, inr, ok, some, subst, sym, text_key, nat_key, ℕ, ◌+◌, ◌-◌,
  ◌<◌, ◌==◌, ◌∙◌, ◌≡◌, ◌≢◌, ◌≤◌, ◌⊎◌, true,
}
use aeon_backend.Base.Int.{ℤ}
use aeon_backend.Base.Dict.{Dict}
use aeon_backend.Base.Text.{trim_space}
use aeon_backend.Chain.Amounts.{game_to_raw}
use aeon_backend.Chain.Credits.{
  TokenBalance, TransactionDetail, Visit, owner_mint, verify_inbound_payment,
}
use aeon_backend.Chain.Credits.Verdict.{verify_inbound_payment_iff}
use aeon_backend.Chain.Credits.Supports.{Supports, from_of, prior}
use aeon_backend.Chain.Credits.Fell.{Fell, RowOf, balance_before, pre_amounts-last}
use aeon_backend.Chain.Credits.Found.{find_decreased_owner_lem}

-- A row behind the transaction shows the deposit wallet's balance grown by the amount needed, and
-- the balance of the payer fell, or that of the owner without a name, or nobody's.
pub record Paid (tx : TransactionDetail) (deposit mint payer : String) (need : ℕ) : Type 0 where
  pub row : TokenBalance
  pub there : Memᴰ row tx.post_token_balances
  pub of_deposit : RowOf mint deposit row
  pub grown : balance_before tx mint deposit < row.amount
  pub enough : balance_before tx mint deposit + need ≤ row.amount
  pub charged :
      ((payer ≢ deposit) × Fell tx mint payer)
      ⊎ (Fell tx mint "" ⊎ ((owner : String) → owner ≢ deposit → Fell tx mint owner → ⊥))

-- The keys of two rows of one mint are the same where the owners are.
owner_mint-same :
    (r row : TokenBalance)
    → r.mint ≡ row.mint
    → (owner_mint r == owner_mint row) ≡ (r.owner == row.owner)
owner_mint-same r row same = elim (Bool-cases (r.owner == row.owner)) [
  | inl a ↦
      (text_key.agrees (owner_mint r) (owner_mint row)).1 (
        ap (λ o. o ⧺ "|" ⧺ r.mint) ((text_key.agrees r.owner row.owner).0 a)
        ∙ ap (λ m. row.owner ⧺ "|" ⧺ m) same)
      ∙ sym a
  | inr a ↦ elim (Bool-cases (owner_mint r == owner_mint row)) [
    | inr b ↦ b ∙ sym a
    | inl b ↦ absurd (cc (sym a ∙ (text_key.agrees r.owner row.owner).1 (owners b)))
  ]
]
  where
    owners : (owner_mint r == owner_mint row) ≡ true → r.owner ≡ row.owner
    owners b = append_cancel_right r.owner row.owner ("|" ⧺ row.mint) (
        ap (λ m. r.owner ⧺ "|" ⧺ m) (sym same)
        ∙ (text_key.agrees (owner_mint r) (owner_mint row)).0 b)

module _ (visit : Visit) (tx : TransactionDetail) (deposit mint payer : String) (need : ℕ)
    (perm : (m : Dict String ℕ) → Permᴰ m (visit m)) (given : deposit ≢ "") (named : mint ≢ "")
    (asked : payer ≢ "") where
  prior-before :
      (row : TokenBalance)
      → row.mint ≡ mint
      → prior visit tx deposit mint row ≡ balance_before tx mint row.owner
  prior-before row same =
      pre_amounts-last mint named owner_mint (owner_mint row) row.owner
        (λ r of. owner_mint-same r row (of ∙ sym same)) [] tx.pre_token_balances

  Supports-Paid :
      (row : TokenBalance)
      → Memᴰ row tx.post_token_balances
      → Supports visit tx deposit mint need payer row
      → Paid tx deposit mint payer need
  Supports-Paid row m h = shown (mint_of h.0) (owner_of h.1)
    where
      mint_of : (mint ≡ "") ⊎ (row.mint ≡ mint) → row.mint ≡ mint
      mint_of (inl e) = absurd (named e)
      mint_of (inr e) = e

      owner_of : (deposit ≡ "") ⊎ (row.owner ≡ deposit) → row.owner ≡ deposit
      owner_of (inl e) = absurd (given e)
      owner_of (inr e) = e

      payer_of :
          (payer ≡ "")
            ⊎ ((from_of visit tx deposit mint row ≡ "")
                ⊎ (from_of visit tx deposit mint row ≡ payer))
          → (from_of visit tx deposit mint row ≡ "") ⊎ (from_of visit tx deposit mint row ≡ payer)
      payer_of (inl e) = absurd (asked e)
      payer_of (inr e) = e

      positive : {a b : ℕ} → a < b → 0 < b - a
      positive p = omega arith

      shown : row.mint ≡ mint → row.owner ≡ deposit → Paid tx deposit mint payer need
      shown same own =
          let before : prior visit tx deposit mint row ≡ balance_before tx mint deposit =
            prior-before row same ∙ ap (balance_before tx mint) own in
          record {
            row = row;
            there = m;
            of_deposit = (own, same);
            grown = subst (λ n. n < row.amount) before h.2;
            enough = subst (λ n. n + need ≤ row.amount) before h.3;
            charged =
                elim (find_decreased_owner_lem tx mint row.owner named visit
                  (row.amount - prior visit tx deposit mint row) perm (positive h.2)) [
                    | inl (e, nobody) ↦
                        inr (inr (λ owner other fell. nobody owner (λ p. other (p ∙ own)) fell))
                    | inr (other, fell) ↦ elim (payer_of h.4) [
                      | inl e ↦ inr (inl (subst (Fell tx mint) e fell))
                      | inr e ↦ inl ((λ p. other (e ∙ p ∙ sym own)), subst (Fell tx mint) e fell)
                    ]
                  ];
          }

  -- What makes a row support the payment.
  Supports-honest :
      (row : TokenBalance)
      → RowOf mint deposit row
      → balance_before tx mint deposit < row.amount
      → balance_before tx mint deposit + need ≤ row.amount
      → ((owner : String) → owner ≢ deposit → Fell tx mint owner → owner ≡ payer)
      → Supports visit tx deposit mint need payer row
  Supports-honest row of grown enough only =
      let before : balance_before tx mint deposit ≡ prior visit tx deposit mint row =
        ap (balance_before tx mint) (sym of.0) ∙ sym (prior-before row of.1) in
      let larger : prior visit tx deposit mint row < row.amount =
        subst (λ n. n < row.amount) before grown in
      (
        inr of.1,
        inr of.0,
        larger,
        subst (λ n. n + need ≤ row.amount) before enough,
        elim (find_decreased_owner_lem tx mint row.owner named visit
            (row.amount - prior visit tx deposit mint row) perm (positive larger)) [
              | inl (e, nobody) ↦ inr (inl e)
              | inr (other, fell) ↦ inr (inr (only _ (λ p. other (p ∙ sym of.0)) fell))
            ],
      )
    where
      positive : {a b : ℕ} → a < b → 0 < b - a
      positive p = omega arith

-- Where `VerifyInboundPayment` accepts a transaction for a given mint, deposit wallet and payer, the
-- amount asked for converts to raw units; a row behind the transaction, of the mint and the deposit
-- wallet, exceeds the amount recorded last for them before it by at least that many units; and the
-- last recorded balance of the payer, who is not the deposit wallet, fell, or that of an owner whose
-- name is empty, or that of no owner but the deposit wallet's. The map of the balances is ranged over
-- in any order.
pub verify_inbound_payment-Paid :
    (visit : Visit) (tx : TransactionDetail) (deposit mint payer : String) (min_game decimals : ℤ)
    → ((m : Dict String ℕ) → Permᴰ m (visit m))
    → trim_space deposit ≢ ""
    → trim_space mint ≢ ""
    → trim_space payer ≢ ""
    → verify_inbound_payment visit (some tx) deposit mint payer min_game decimals ≡ ok tt
    → (need : ℕ) × ((game_to_raw min_game decimals ≡ ok need)
        × Paid tx (trim_space deposit) (trim_space mint) (trim_space payer) need)
verify_inbound_payment-Paid visit tx deposit mint payer min_game decimals perm given named asked h =
    let (need, (e, (row, (m, p)))) =
      (verify_inbound_payment_iff visit tx deposit mint payer min_game decimals).0 h in
    (
      need,
      (
        e,
        Supports-Paid visit tx (trim_space deposit) (trim_space mint) (trim_space payer) need perm
            given named asked row m p,
      ),
    )

-- `VerifyInboundPayment` accepts, for a given mint, deposit wallet and payer, every transaction
-- behind which a row of the mint and the deposit wallet exceeds the amount recorded last for them
-- before it, by at least the raw units that the amount asked for converts to, if the last recorded
-- balance of no owner but the payer and the deposit wallet fell. The map of the balances is ranged
-- over in any order.
pub verify_inbound_payment-accepts :
    (visit : Visit) (tx : TransactionDetail) (deposit mint payer : String) (min_game decimals : ℤ)
    (need : ℕ) (row : TokenBalance)
    → ((m : Dict String ℕ) → Permᴰ m (visit m))
    → trim_space deposit ≢ ""
    → trim_space mint ≢ ""
    → trim_space payer ≢ ""
    → game_to_raw min_game decimals ≡ ok need
    → Memᴰ row tx.post_token_balances
    → RowOf (trim_space mint) (trim_space deposit) row
    → balance_before tx (trim_space mint) (trim_space deposit) < row.amount
    → balance_before tx (trim_space mint) (trim_space deposit) + need ≤ row.amount
    → ((owner : String)
        → owner ≢ trim_space deposit
        → Fell tx (trim_space mint) owner
        → owner ≡ trim_space payer)
    → verify_inbound_payment visit (some tx) deposit mint payer min_game decimals ≡ ok tt
verify_inbound_payment-accepts visit tx deposit mint payer min_game decimals need row perm given
      named asked e m of grown enough only =
    (verify_inbound_payment_iff visit tx deposit mint payer min_game decimals).1 (
      need,
      (
        e,
        (
          row,
          (
            m,
            Supports-honest visit tx (trim_space deposit) (trim_space mint) (trim_space payer) need
                perm given named asked row of grown enough only,
          ),
        ),
      ),
    )
