-- ===== src/Chain/Credits.antt =====
-- What a transaction paid into the deposit wallet: `InboundTokenCredits` and `findDecreasedOwner`
-- of internal/chain/rpc.go, and `VerifyInboundPayment` of internal/chain/payout.go. A pointer that
-- may be nil is an option; `visit` is the order in which Go ranges over a map.
pub mod Fell
pub mod Scans
pub mod Payers
pub mod Found
pub mod Supports
pub mod Verdict
pub mod Payment
use Prim.Native.String.{◌++◌ as ◌⧺◌}
use aeon_backend.Base.{
  Bool, Error, List, Option, Result, String, [], err, false, guard, if◌then◌else◌, leb, length, ltb,
  none, not, some, true, ℕ, ◌&&◌, ◌-◌, ◌==◌, ◌>>=◌, ◌>>◌, ◌||◌, ◌∷◌, nat_key, text_key,
}
use aeon_backend.Base.Int.{ℤ}
use aeon_backend.Base.Dict.{Dict, insert, lookup}
use aeon_backend.Chain.Amounts.{game_to_raw}
use aeon_backend.Base.Text.{trim_space, format_int}

pub record TokenBalance : Type 0 where
  pub account_index : ℤ
  pub mint : String
  pub owner : String
  pub amount : ℕ
  pub decimals : ℤ
  pub ui_token_amount : String

pub record TransactionDetail : Type 0 where
  pub signature : String
  pub slot : ℕ
  pub pre_token_balances : List TokenBalance
  pub post_token_balances : List TokenBalance

pub record TokenCredit : Type 0 where
  pub signature : String
  pub slot : ℕ
  pub mint : String
  pub from_owner : String
  pub to_owner : String
  pub to_token_account : String
  pub amount_raw : ℕ

abbrev pub Visit : Type 0
Visit = Dict String ℕ → Dict String ℕ

-- A map read under a key that it may not have.
abbrev pub amount_at : String → Dict String ℕ → ℕ
amount_at k m = elim (lookup k m) [ none ↦ 0 | some n ↦ n ]

-- The test that skips a row of another mint.
abbrev pub other_mint : String → TokenBalance → Bool
other_mint mint row = not (mint == "") && not (row.mint == mint)

-- The loops that fill `pre`, from the rows of the mint, keyed by `key`.
unfoldable pub pre_amounts :
    (TokenBalance → String) → String → Dict String ℕ → List TokenBalance → Dict String ℕ
pre_amounts key mint pre [] = pre
pre_amounts key mint pre (row ∷ rows) =
    if other_mint mint row
    then pre_amounts key mint pre rows
    else pre_amounts key mint (insert (key row) row.amount pre) rows

-- The first loop of `findDecreasedOwner`: an owner whose balance fell by exactly `delta`.
unfoldable pub exact_decrease :
    String → String → ℕ → Dict String ℕ → List TokenBalance → Option String
exact_decrease mint exclude delta pre [] = none
exact_decrease mint exclude delta pre (row ∷ rows) =
    let rest = exact_decrease mint exclude delta pre rows in
    let before = amount_at row.owner pre in
    if other_mint mint row
    then rest
    else if row.owner == exclude
    then rest
    else if leb row.amount before && (before - row.amount == delta)
    then some row.owner
    else rest

-- The inner loop of the second one: whether a row of the owner was found before the loop ended or
-- returned, and whether it returned.
unfoldable pub scan_owner : String → String → ℕ → List TokenBalance → Bool → Bool × Bool
scan_owner mint owner before [] found = (found, false)
scan_owner mint owner before (row ∷ rows) found =
    let skipped = scan_owner mint owner before rows found in
    let later = scan_owner mint owner before rows true in
    if (row.owner == owner) && ((mint == "") || (row.mint == mint))
    then (if ltb row.amount before then (true, true) else later)
    else skipped

unfoldable pub any_decrease : String → String → List TokenBalance → Dict String ℕ → String
unfolding scan_owner
any_decrease mint exclude post [] = ""
any_decrease mint exclude post ((owner, before) ∷ pre) =
    let rest = any_decrease mint exclude post pre in
    let seen = scan_owner mint owner before post false in
    if owner == exclude
    then rest
    else if seen.1
    then owner
    else if not seen.0 && ltb 0 before
    then owner
    else rest

-- `findDecreasedOwner`
unfoldable pub find_decreased_owner : Visit → TransactionDetail → String → String → ℕ → String
unfolding pre_amounts exact_decrease any_decrease
find_decreased_owner visit tx mint exclude delta =
    let pre = pre_amounts (λ row. row.owner) mint [] tx.pre_token_balances in
    elim (exact_decrease mint exclude delta pre tx.post_token_balances) [
      | some owner ↦ owner
      | none ↦ any_decrease mint exclude tx.post_token_balances (visit pre)
    ]

abbrev pub owner_mint : TokenBalance → String
owner_mint row = row.owner ⧺ "|" ⧺ row.mint

abbrev pub credit_of : Visit → TransactionDetail → String → TokenBalance → ℕ → TokenCredit
credit_of visit tx mint row delta = record {
  signature = tx.signature;
  slot = tx.slot;
  mint = row.mint;
  from_owner = find_decreased_owner visit tx mint row.owner delta;
  to_owner = row.owner;
  to_token_account = "";
  amount_raw = delta;
}

-- The test that skips a row of another owner.
abbrev pub other_owner : String → TokenBalance → Bool
other_owner deposit row = not (deposit == "") && not (row.owner == deposit)

-- The second loop of `InboundTokenCredits`.
unfoldable pub credit_rows :
    Visit
    → TransactionDetail
    → String
    → String
    → Dict String ℕ
    → List TokenBalance
    → List TokenCredit
unfolding find_decreased_owner
credit_rows visit tx deposit mint pre [] = []
credit_rows visit tx deposit mint pre (row ∷ rows) =
    let rest = credit_rows visit tx deposit mint pre rows in
    let before = amount_at (owner_mint row) pre in
    let delta = row.amount - before in
    if other_mint mint row
    then rest
    else if other_owner deposit row
    then rest
    else if leb row.amount before
    then rest
    else credit_of visit tx mint row delta ∷ rest

-- `InboundTokenCredits`
unfoldable pub inbound_token_credits :
    Visit → Option TransactionDetail → String → String → List TokenCredit
unfolding pre_amounts credit_rows trim_space
inbound_token_credits visit none deposit mint = []
inbound_token_credits visit (some tx) deposit mint =
    credit_rows visit tx (trim_space deposit) (trim_space mint)
      (pre_amounts owner_mint (trim_space mint) [] tx.pre_token_balances) tx.post_token_balances

-- The test that `VerifyInboundPayment` makes of one credit.
abbrev pub pays : ℕ → String → TokenCredit → Bool
pays need payer credit =
    if ltb credit.amount_raw need
    then false
    else not
        (not (payer == "") && (not (credit.from_owner == "") && not (credit.from_owner == payer)))

unfoldable pub any_pays : ℕ → String → List TokenCredit → Bool
any_pays need payer [] = false
any_pays need payer (credit ∷ credits) =
    if pays need payer credit then true else any_pays need payer credits

abbrev pub mismatch : ℤ → Error
mismatch min_game =
    Error.message ("payment amount/payer mismatch (need >= " ⧺ format_int min_game ⧺ " game units)")

-- `VerifyInboundPayment`
unfoldable pub verify_inbound_payment :
    Visit → Option TransactionDetail → String → String → String → ℤ → ℤ → Result (Unit {0})
unfolding inbound_token_credits game_to_raw any_pays trim_space
verify_inbound_payment visit none deposit mint payer min_game decimals =
    err (Error.message "transaction not found")
verify_inbound_payment visit (some tx) deposit mint payer min_game decimals =
    let credits = inbound_token_credits visit (some tx) deposit mint in
    guard (not (length credits == 0))
      (Error.message "transaction has no inbound token transfer to deposit wallet")
    >> game_to_raw min_game decimals
    >>= λ need. guard (any_pays need (trim_space payer) credits) (mismatch min_game)
