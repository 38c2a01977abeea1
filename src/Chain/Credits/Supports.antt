-- ===== src/Chain/Credits/Supports.antt =====
-- The loops over the credits of a transaction as a test of its rows.
use aeon_backend.Base.{
  Bool, List, String, [], ap, arith, false, if◌then◌else◌, inl, inr, leb, ltb, not, refl, text_key,
  true, ℕ, ◌&&◌, ◌+◌, ◌-◌, ◌<◌, ◌==◌, ◌||◌, ◌↔◌, ◌∙◌, ◌∷◌, ◌≡◌, ◌≤◌, ◌⊎◌, Bool-cases, sym, nat_key,
}
use aeon_backend.Chain.Credits.{
  TokenBalance, TokenCredit, TransactionDetail, Visit, amount_at, any_pays, credit_of, credit_rows,
  find_decreased_owner, other_mint, other_owner, owner_mint, pays, pre_amounts,
}
use mathlib.Core.List.{Memᴰ}

-- A test of the source, and what it says.
skip_iff :
    (b c : Bool) {P Q : Type 0}
    → (b ≡ true) ↔ P
    → (c ≡ true) ↔ Q
    → (not (not b && not c) ≡ true) ↔ (P ⊎ Q)
skip_iff true c p q = (λ h. inl (p.0 refl), λ h. refl)
skip_iff false true p q = (λ h. inr (q.0 refl), λ h. refl)
skip_iff false false p q = (λ h. cc, λ h. elim h [ inl x ↦ p.1 x | inr y ↦ q.1 y ])

-- The rows that a payment may rest on: of the mint, of the deposit wallet, grown by at least the
-- raw amount needed, and not paid by somebody else.
module _ (visit : Visit) (tx : TransactionDetail) (deposit mint : String) where
  abbrev pub prior : TokenBalance → ℕ
  prior row = amount_at (owner_mint row) (pre_amounts owner_mint mint [] tx.pre_token_balances)

  abbrev pub from_of : TokenBalance → String
  from_of row = find_decreased_owner visit tx mint row.owner (row.amount - prior row)

  abbrev pub Supports : ℕ → String → TokenBalance → Type 0
  Supports need payer row =
      ((mint ≡ "") ⊎ (row.mint ≡ mint))
      × ((deposit ≡ "") ⊎ (row.owner ≡ deposit))
      × (prior row < row.amount)
      × (prior row + need ≤ row.amount)
      × ((payer ≡ "") ⊎ ((from_of row ≡ "") ⊎ (from_of row ≡ payer)))

  abbrev row_pays : ℕ → String → TokenBalance → Bool
  row_pays need payer row =
      not (other_mint mint row)
      && (not (other_owner deposit row)
          && (not (leb row.amount (prior row))
              && pays need payer (credit_of visit tx mint row (row.amount - prior row))))

  pub any_row : ℕ → String → List TokenBalance → Bool
  any_row need payer [] = false
  any_row need payer (row ∷ rows) = row_pays need payer row || any_row need payer rows

  any_pays-guards :
      (need : ℕ) (payer : String) (m d l : Bool) (c : TokenCredit) (rest : List TokenCredit)
      → any_pays need payer (if m then rest else if d then rest else if l then rest else c ∷ rest)
        ≡ ((not m && (not d && (not l && pays need payer c))) || any_pays need payer rest)
  unfolding any_pays
  any_pays-guards need payer true d l c rest = refl
  any_pays-guards need payer false true l c rest = refl
  any_pays-guards need payer false false true c rest = refl
  any_pays-guards need payer false false false c rest = choice (pays need payer c) _
    where
      choice : (b r : Bool) → (if b then true else r) ≡ (b || r)
      choice true r = refl
      choice false r = refl

  pub any_pays-credit_rows :
      (need : ℕ) (payer : String) (rows : List TokenBalance)
      → any_pays need payer (
          credit_rows visit tx deposit mint
            (pre_amounts owner_mint mint [] tx.pre_token_balances)
            rows)
        ≡ any_row need payer rows
  unfolding credit_rows any_row
  any_pays-credit_rows need payer [] = unfold any_pays in refl
  any_pays-credit_rows need payer (row ∷ rows) =
      any_pays-guards need payer (other_mint mint row) (other_owner deposit row)
        (leb row.amount (prior row)) (credit_of visit tx mint row (row.amount - prior row))
        (credit_rows visit tx deposit mint (pre_amounts owner_mint mint [] tx.pre_token_balances)
          rows)
      ∙ ap (λ r. row_pays need payer row || r) (any_pays-credit_rows need payer rows)

  row_pays_iff :
      (need : ℕ) (payer : String) (row : TokenBalance)
      → (row_pays need payer row ≡ true) ↔ Supports need payer row
  row_pays_iff need payer row =
      joined (other_mint mint row) (other_owner deposit row)
        (not (payer == "") && (not (from_of row == "") && not (from_of row == payer))) need
        row.amount (prior row)
        (skip_iff _ _ (text_key.agrees mint "") (text_key.agrees row.mint mint))
        (skip_iff _ _ (text_key.agrees deposit "") (text_key.agrees row.owner deposit))
        (payer_iff (payer == "") _ _ (text_key.agrees payer "") (text_key.agrees (from_of row) "")
          (text_key.agrees (from_of row) payer))
    where
      joined :
          (m d f : Bool) (need amount before : ℕ) {P Q R : Type 0}
          → (not m ≡ true) ↔ P
          → (not d ≡ true) ↔ Q
          → (not f ≡ true) ↔ R
          → ((not m
                && (not d
                    && (not (leb amount before)
                        && (if ltb (amount - before) need then false else not f))))
              ≡ true)
            ↔ (P × Q × (before < amount) × (before + need ≤ amount) × R)
      joined true d f need amount before p q r = (λ h. cc, λ h. p.1 h.0)
      joined false true f need amount before p q r = (λ h. cc, λ h. q.1 h.1)
      joined false false true need amount before p q r =
          (λ h. absurd (ground arith), λ h. absurd (cc (r.1 h.4)))
      joined false false false need amount before p q r =
          (λ h. (p.0 refl, q.0 refl, ground arith, ground arith, r.0 refl), λ h. ground arith)

      payer_iff :
          (a b c : Bool) {P Q R : Type 0}
          → (a ≡ true) ↔ P
          → (b ≡ true) ↔ Q
          → (c ≡ true) ↔ R
          → (not (not a && (not b && not c)) ≡ true) ↔ (P ⊎ (Q ⊎ R))
      payer_iff true b c p q r = (λ h. inl (p.0 refl), λ h. refl)
      payer_iff false true c p q r = (λ h. inr (inl (q.0 refl)), λ h. refl)
      payer_iff false false true p q r = (λ h. inr (inr (r.0 refl)), λ h. refl)
      payer_iff false false false p q r =
          (λ h. cc, λ h. elim h [ inl x ↦ p.1 x | inr (inl y) ↦ q.1 y | inr (inr z) ↦ r.1 z ])

  unfoldable pub SomeRow : ℕ → String → List TokenBalance → Type 0
  SomeRow need payer rows = (row : TokenBalance) × (Memᴰ row rows × Supports need payer row)

  pub any_row-SomeRow :
      (need : ℕ) (payer : String) (rows : List TokenBalance)
      → any_row need payer rows ≡ true
      → SomeRow need payer rows
  unfolding any_row SomeRow
  any_row-SomeRow need payer [] h = cc
  any_row-SomeRow need payer (row ∷ rows) h = elim (Bool-cases (row_pays need payer row)) [
    | inl t ↦ (row, (Memᴰ.head refl, (row_pays_iff need payer row).0 t))
    | inr n ↦
        let (r, (m, p)) = any_row-SomeRow need payer rows (later _ _ n h) in (r, (Memᴰ.tail m, p))
  ]
    where
      later : (b c : Bool) → b ≡ false → (b || c) ≡ true → c ≡ true
      later true c n h = cc
      later false c n h = h

  pub SomeRow-any_row :
      (need : ℕ) (payer : String) (rows : List TokenBalance) (row : TokenBalance)
      → Memᴰ row rows
      → Supports need payer row
      → any_row need payer rows ≡ true
  unfolding any_row
  SomeRow-any_row need payer [] row m p = elim m [ ]
  SomeRow-any_row need payer (x ∷ rows) row (Memᴰ.head e) p =
      ap (λ b. b || any_row need payer rows)
        (ap (row_pays need payer) (sym e) ∙ (row_pays_iff need payer row).1 p)
  SomeRow-any_row need payer (x ∷ rows) row (Memᴰ.tail m) p =
      either (row_pays need payer x) (SomeRow-any_row need payer rows row m p)
    where
      either : (b : Bool) {c : Bool} → c ≡ true → (b || c) ≡ true
      either true e = refl
      either false e = e
