-- ===== src/Chain/Credits/Found.antt =====
-- What `findDecreasedOwner` of internal/chain/rpc.go establishes of the owner that it returns.
use mathlib.Core.List.{Memᴰ, Permᴰ}
use aeon_backend.Base.{
  All, Bool, Bool-cases, List, Option, Option-cases, String, [], ap, arith, false, inl, inr, leb,
  nat_key, none, not, refl, some, subst, sym, text_key, true, ℕ, ◌&&◌, ◌-◌, ◌<◌, ◌==◌, ◌∙◌, ◌∷◌,
  ◌≡◌, ◌≢◌, ◌⊎◌,
}
use aeon_backend.Chain.Credits.{
  TokenBalance, TransactionDetail, Visit, amount_at, exact_decrease, find_decreased_owner,
  other_mint, pre_amounts, any_decrease,
}
use aeon_backend.Chain.Credits.Fell.{
  Fell, RowOf, balance_before, other_mint-named, pre_amounts-Distinct, pre_amounts-last,
}
use aeon_backend.Chain.Credits.Payers.{Named, any_lem}
use aeon_backend.Base.Dict.{Dict, lookup}
use aeon_backend.Base.Rows.{All-lookup, All-map, All-perm, Holds-self}

-- A reordering can be undone.
Permᴰ-sym {ℓ} : {A : Type ℓ} {xs ys : List A} → Permᴰ xs ys → Permᴰ ys xs
Permᴰ-sym Permᴰ.nil = Permᴰ.nil
Permᴰ-sym (Permᴰ.cons e p) = Permᴰ.cons (sym e) (Permᴰ-sym p)
Permᴰ-sym (Permᴰ.swap e f) = Permᴰ.swap (sym f) (sym e)
Permᴰ-sym (Permᴰ.trans p q) = Permᴰ.trans (Permᴰ-sym q) (Permᴰ-sym p)

module _ (tx : TransactionDetail) (mint exclude : String) (named : mint ≢ "") where
  abbrev recorded : Dict String ℕ
  recorded = pre_amounts (λ row. row.owner) mint [] tx.pre_token_balances

  recorded-before : (owner : String) → amount_at owner recorded ≡ balance_before tx mint owner
  recorded-before owner =
      pre_amounts-last mint named (λ row. row.owner) owner owner (λ row same. refl) []
        tx.pre_token_balances

  recorded-rows : All (λ e. e.1 ≡ balance_before tx mint e.0) recorded
  recorded-rows =
      All-map (λ e. lookup e.0 recorded ≡ some e.1) (λ e. e.1 ≡ balance_before tx mint e.0)
        (λ e there.
          sym (ap (λ (o : Option ℕ). elim o [ none ↦ 0 | some n ↦ n ]) there) ∙ recorded-before e.0)
        recorded
        (Holds-self recorded
          (pre_amounts-Distinct mint named (λ row. row.owner) [] tx.pre_token_balances tt))

  -- The first loop.
  exact_lem :
      (delta : ℕ) (r : String) (rows : List TokenBalance)
      → 0 < delta
      → exact_decrease mint exclude delta recorded rows ≡ some r
      → (r ≢ exclude)
        × ((row : TokenBalance) × (Memᴰ row rows
              × (RowOf mint r row × (row.amount < balance_before tx mint r))))
  unfolding exact_decrease
  exact_lem delta r [] positive h = cc h
  exact_lem delta r (row ∷ rows) positive h = elim (Bool-cases (other_mint mint row)) [
    | inl a ↦ onward (exact_lem delta r rows positive (rw a at h))
    | inr a ↦ elim (Bool-cases (row.owner == exclude)) [
      | inl b ↦ onward (exact_lem delta r rows positive (rw (a, b) at h))
      | inr b ↦
          elim (Bool-cases (
            leb row.amount (amount_at row.owner recorded)
            && (amount_at row.owner recorded - row.amount == delta))) [
              | inr c ↦ onward (exact_lem delta r rows positive (rw (a, b, c) at h))
              | inl c ↦ here_it_is a b c (rw (a, b, c) at h)
            ]
    ]
  ]
    where
      onward :
          (r ≢ exclude)
            × ((row : TokenBalance) × (Memᴰ row rows
                  × (RowOf mint r row × (row.amount < balance_before tx mint r))))
          → (r ≢ exclude)
            × ((x : TokenBalance) × (Memᴰ x (row ∷ rows)
                  × (RowOf mint r x × (x.amount < balance_before tx mint r))))
      onward (n, (x, (m, p))) = (n, (x, (Memᴰ.tail m, p)))

      of_mint : other_mint mint row ≡ false → row.mint ≡ mint
      of_mint a =
          (text_key.agrees row.mint mint).0 (opened _ (sym (other_mint-named mint named row) ∙ a))
        where
          opened : (b : Bool) → not b ≡ false → b ≡ true
          opened true h = refl
          opened false h = cc h

      lower : (n : ℕ) → (leb row.amount n && (n - row.amount == delta)) ≡ true → row.amount < n
      lower n c = elim (Bool-cases (n - row.amount == delta)) [
        | inl e ↦ let same = (nat_key.agrees (n - row.amount) delta).0 e in omega (arith, same)
        | inr e ↦ cc (sym (fails (leb row.amount n) _ e) ∙ c)
      ]
        where
          fails : (a b : Bool) → b ≡ false → (a && b) ≡ false
          fails true b e = e
          fails false b e = refl

      here_it_is :
          other_mint mint row ≡ false
          → (row.owner == exclude) ≡ false
          → (leb row.amount (amount_at row.owner recorded)
              && (amount_at row.owner recorded - row.amount == delta))
            ≡ true
          → some row.owner ≡ some r
          → (r ≢ exclude)
            × ((x : TokenBalance) × (Memᴰ x (row ∷ rows)
                  × (RowOf mint r x × (x.amount < balance_before tx mint r))))
      here_it_is a b c e =
          let same : row.owner ≡ r = cc e in
          (
            λ p. cc (sym b ∙ (text_key.agrees row.owner exclude).1 (same ∙ p)),
            (
              row,
              (
                Memᴰ.head refl,
                (
                  (same, of_mint a),
                  subst (λ o. row.amount < balance_before tx mint o) same
                      (subst (λ n. row.amount < n) (recorded-before row.owner)
                        (lower (amount_at row.owner recorded) c)),
                ),
              ),
            ),
          )

  -- An owner whose balance fell has a row in the map.
  Fell-positive : (owner : String) → Fell tx mint owner → 0 < balance_before tx mint owner
  Fell-positive owner (inl (row, (m, (of, low)))) = omega arith
  Fell-positive owner (inr (positive, gone)) = positive

  recorded-lookup :
      (owner : String)
      → 0 < balance_before tx mint owner
      → lookup owner recorded ≡ some (balance_before tx mint owner)
  recorded-lookup owner positive = elim (Option-cases (lookup owner recorded)) [
    | inl gone ↦ absurd (none_is_zero gone positive)
    | inr (n, there) ↦
        there
        ∙ ap some (
            sym (ap (λ (o : Option ℕ). elim o [ none ↦ 0 | some k ↦ k ]) there)
            ∙ recorded-before owner)
  ]
    where
      none_is_zero : lookup owner recorded ≡ none → 0 < balance_before tx mint owner → ⊥
      none_is_zero gone p =
          let z : 0 ≡ balance_before tx mint owner =
            sym (ap (λ (o : Option ℕ). elim o [ none ↦ 0 | some k ↦ k ]) gone)
            ∙ recorded-before owner in
          omega (arith, z)

  -- Nobody's balance fell, the excluded owner's apart; or the owner returned is another one, whose
  -- balance fell.
  abbrev pub NoneElse : String → Type 0
  NoneElse r =
      ((r ≡ "") × ((owner : String) → owner ≢ exclude → Fell tx mint owner → ⊥))
      ⊎ ((r ≢ exclude) × Fell tx mint r)

  found-exact :
      (visit : Visit) (delta : ℕ) (r : String)
      → exact_decrease mint exclude delta recorded tx.post_token_balances ≡ some r
      → find_decreased_owner visit tx mint exclude delta ≡ r
  unfolding find_decreased_owner
  found-exact visit delta r e = rw (find_decreased_owner, e) refl

  found-any :
      (visit : Visit) (delta : ℕ)
      → exact_decrease mint exclude delta recorded tx.post_token_balances ≡ none
      → find_decreased_owner visit tx mint exclude delta
        ≡ any_decrease mint exclude tx.post_token_balances (visit recorded)
  unfolding find_decreased_owner
  found-any visit delta e = rw (find_decreased_owner, e) refl

  pub find_decreased_owner_lem :
      (visit : Visit) (delta : ℕ)
      → ((m : Dict String ℕ) → Permᴰ m (visit m))
      → 0 < delta
      → NoneElse (find_decreased_owner visit tx mint exclude delta)
  find_decreased_owner_lem visit delta perm positive =
      elim (Option-cases (exact_decrease mint exclude delta recorded tx.post_token_balances)) [
        | inr (r, e) ↦
            let (n, lowered) = exact_lem delta r tx.post_token_balances positive e in
            subst NoneElse (sym (found-exact visit delta r e)) (inr (n, inl lowered))
        | inl e ↦ subst NoneElse (sym (found-any visit delta e)) (
            nobody (
              any_lem tx mint exclude named (visit recorded)
                (All-perm (λ e. e.1 ≡ balance_before tx mint e.0) (perm recorded) recorded-rows)))
      ]
    where
      nobody : {r : String} → Named tx mint exclude named (visit recorded) r → NoneElse r
      nobody (inr found) = inr found
      nobody (inl (e, a)) = inl (
        e,
        λ owner other fell.
            All-lookup (λ e. e.0 ≢ exclude → Fell tx mint e.0 → ⊥) owner
              (balance_before tx mint owner) recorded
              (All-perm (λ e. e.0 ≢ exclude → Fell tx mint e.0 → ⊥) (Permᴰ-sym (perm recorded)) a)
              (recorded-lookup owner (Fell-positive owner fell)) other fell,
      )
