-- ===== src/Chain/Credits/Fell.antt =====
-- Whose balance a transaction lowered, read from the rows of the transaction themselves
-- (`findDecreasedOwner` of internal/chain/rpc.go).
use mathlib.Core.List.{Memᴰ}
use aeon_backend.Base.{
  All, Bool, Bool-cases, List, String, [], ap, false, if◌then◌else◌, inl, inr, nat_key, not, refl,
  subst, sym, text_key, true, ℕ, ◌&&◌, ◌<◌, ◌==◌, ◌∙◌, ◌∷◌, ◌≡◌, ◌≢◌, ◌⊎◌, ==-false_of_ne,
}
use aeon_backend.Chain.Credits.{TokenBalance, TransactionDetail, amount_at, other_mint, pre_amounts}
use aeon_backend.Base.Dict.{Dict, insert, lookup-insert}
use aeon_backend.Base.Rows.{Distinct, Distinct-insert}

-- The amount that the rows record last for an owner and mint, if they record one.
unfoldable pub last_amount : String → String → ℕ → List TokenBalance → ℕ
last_amount owner mint amount [] = amount
last_amount owner mint amount (row ∷ rows) =
    last_amount owner mint
      (if (row.owner == owner) && (row.mint == mint) then row.amount else amount) rows

abbrev pub balance_before : TransactionDetail → String → String → ℕ
balance_before tx mint owner = last_amount owner mint 0 tx.pre_token_balances

-- The row is of the owner and mint.
abbrev pub RowOf : String → String → TokenBalance → Type 0
RowOf mint owner row = (row.owner ≡ owner) × (row.mint ≡ mint)

-- Some row behind the transaction is below the owner's balance before it, or there is none and the
-- balance was not zero.
abbrev pub Fell : TransactionDetail → String → String → Type 0
Fell tx mint owner =
    ((row : TokenBalance) × (Memᴰ row tx.post_token_balances
        × (RowOf mint owner row × (row.amount < balance_before tx mint owner))))
    ⊎ ((0 < balance_before tx mint owner)
        × All (λ row. RowOf mint owner row → ⊥) tx.post_token_balances)

module _ (mint : String) (named : mint ≢ "") where
  pub other_mint-named : (row : TokenBalance) → other_mint mint row ≡ not (row.mint == mint)
  other_mint-named row = rw (==-false_of_ne mint "" named) refl

  -- The map that is filled from the rows holds what they record last, where the key of a row of the
  -- mint is the owner's exactly when the row is.
  pub pre_amounts-last :
      (key : TokenBalance → String) (k owner : String)
      → ((row : TokenBalance) → row.mint ≡ mint → (key row == k) ≡ (row.owner == owner))
      → (m : Dict String ℕ) (rows : List TokenBalance)
      → amount_at k (pre_amounts key mint m rows) ≡ last_amount owner mint (amount_at k m) rows
  unfolding pre_amounts last_amount
  pre_amounts-last key k owner keyed m [] = refl
  pre_amounts-last key k owner keyed m (row ∷ rows) = elim (Bool-cases (row.mint == mint)) [
    | inr other ↦
        ap
          (λ b. amount_at k (
            if b
            then pre_amounts key mint m rows
            else pre_amounts key mint (insert (key row) row.amount m) rows))
          (other_mint-named row ∙ ap not other)
        ∙ pre_amounts-last key k owner keyed m rows
        ∙ ap (λ n. last_amount owner mint n rows) (sym (skipped _ _ other))
    | inl same ↦
        ap
          (λ b. amount_at k (
            if b
            then pre_amounts key mint m rows
            else pre_amounts key mint (insert (key row) row.amount m) rows))
          (other_mint-named row ∙ ap not same)
        ∙ pre_amounts-last key k owner keyed (insert (key row) row.amount m) rows
        ∙ ap (λ n. last_amount owner mint n rows)
            (amount_at-insert (key row)
              ∙ ap (λ b. if b then row.amount else amount_at k m)
                  (keyed row ((text_key.agrees row.mint mint).0 same))
              ∙ sym (taken _ _ same))
  ]
    where
      skipped :
          (a b : Bool) → b ≡ false → (if a && b then row.amount else amount_at k m) ≡ amount_at k m
      skipped true b e = ap (λ c. if c then row.amount else amount_at k m) e
      skipped false b e = refl

      taken :
          (a b : Bool)
          → b ≡ true
          → (if a && b then row.amount else amount_at k m)
            ≡ (if a then row.amount else amount_at k m)
      taken true b e = ap (λ c. if c then row.amount else amount_at k m) e
      taken false b e = refl

      amount_at-insert :
          (j : String)
          → amount_at k (insert j row.amount m) ≡ (if j == k then row.amount else amount_at k m)
      amount_at-insert j = elim (Bool-cases (j == k)) [
        | inl e ↦ rw (amount_at, lookup-insert k j row.amount m, e) refl
        | inr e ↦ rw (amount_at, lookup-insert k j row.amount m, e) refl
      ]

  pub pre_amounts-Distinct :
      (key : TokenBalance → String) (m : Dict String ℕ) (rows : List TokenBalance)
      → Distinct m
      → Distinct (pre_amounts key mint m rows)
  unfolding pre_amounts
  pre_amounts-Distinct key m [] d = d
  pre_amounts-Distinct key m (row ∷ rows) d = elim (Bool-cases (other_mint mint row)) [
    | inl t ↦ rw t (pre_amounts-Distinct key m rows d)
    | inr f ↦ rw f (
        pre_amounts-Distinct key (insert (key row) row.amount m) rows
          (Distinct-insert (key row) row.amount m d))
  ]

-- What holds of all the rows holds of one of them.
pub All-mem {ℓ κ} : {A : Type ℓ} (P : A → Type κ) (x : A) (xs : List A) → Memᴰ x xs → All P xs → P x
All-mem P x [] m h = elim m [ ]
All-mem P x (y ∷ ys) (Memᴰ.head e) h = subst P (sym e) h.0
All-mem P x (y ∷ ys) (Memᴰ.tail m) h = All-mem P x ys m h.1
