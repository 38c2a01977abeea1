-- ===== src/Chain/Credits/Payers.antt =====
-- The owner that `findDecreasedOwner` of internal/chain/rpc.go returns.
use aeon_backend.Base.{
  All, Bool, Bool-cases, List, String, [], arith, false, inl, inr, ltb, nat_key, refl, subst, sym,
  text_key, true, ℕ, ◌&&◌, ◌<◌, ◌==◌, ◌||◌, ◌∙◌, ◌∷◌, ◌≡◌, ◌≢◌, ◌≤◌, ◌⊎◌, ==-false_of_ne,
}
use aeon_backend.Chain.Credits.{TokenBalance, TransactionDetail, any_decrease, scan_owner}
use aeon_backend.Chain.Credits.Fell.{All-mem, Fell, RowOf, balance_before}
use aeon_backend.Base.Dict.{Dict}
use aeon_backend.Chain.Credits.Scans.{hits, scan_lem}

module _ (tx : TransactionDetail) (mint exclude : String) (named : mint ≢ "") where
  pub hits-RowOf :
      (owner : String) (row : TokenBalance) → hits mint owner 0 row ≡ true → RowOf mint owner row
  hits-RowOf owner row h =
      parts (row.owner == owner) (mint == "") (row.mint == mint) (==-false_of_ne mint "" named)
        (text_key.agrees row.owner owner).0 (text_key.agrees row.mint mint).0 h
    where
      parts :
          (a b c : Bool) {P Q : Type 0}
          → b ≡ false
          → (a ≡ true → P)
          → (c ≡ true → Q)
          → (a && (b || c)) ≡ true
          → P × Q
      parts true false true e p q h = (p refl, q refl)
      parts true false false e p q h = cc h
      parts true true c e p q h = cc e
      parts false b c e p q h = cc h

  RowOf-hits :
      (owner : String) (row : TokenBalance) → RowOf mint owner row → hits mint owner 0 row ≡ true
  RowOf-hits owner row h =
      rw
        (
          (text_key.agrees row.owner owner).1 h.0,
          ==-false_of_ne mint "" named,
          (text_key.agrees row.mint mint).1 h.1,
        )
        refl

  -- The second loop.
  module _ (owner : String) (before : ℕ) (rest : Dict String ℕ) where
    abbrev seen : Bool × Bool
    seen = scan_owner mint owner before tx.post_token_balances false

    abbrev result : String
    result = any_decrease mint exclude tx.post_token_balances ((owner, before) ∷ rest)

    any-excluded :
        (owner == exclude) ≡ true → result ≡ any_decrease mint exclude tx.post_token_balances rest
    unfolding any_decrease
    any-excluded e = rw (any_decrease, e) refl

    any-low : (owner == exclude) ≡ false → seen ≡ (true, true) → result ≡ owner
    unfolding any_decrease
    any-low e s = rw (any_decrease, e, s) refl

    any-high :
        (owner == exclude) ≡ false
        → seen ≡ (true, false)
        → result ≡ any_decrease mint exclude tx.post_token_balances rest
    unfolding any_decrease
    any-high e s = rw (any_decrease, e, s) refl

    any-gone :
        (owner == exclude) ≡ false → seen ≡ (false, false) → ltb 0 before ≡ true → result ≡ owner
    unfolding any_decrease
    any-gone e s p = rw (any_decrease, e, s, p) refl

    any-empty :
        (owner == exclude) ≡ false
        → seen ≡ (false, false)
        → ltb 0 before ≡ false
        → result ≡ any_decrease mint exclude tx.post_token_balances rest
    unfolding any_decrease
    any-empty e s p = rw (any_decrease, e, s, p) refl

  -- Nobody else's balance fell, or the owner returned is another one, whose balance fell.
  abbrev pub Named : Dict String ℕ → String → Type 0
  Named pre r =
      ((r ≡ "") × All (λ e. e.0 ≢ exclude → Fell tx mint e.0 → ⊥) pre)
      ⊎ ((r ≢ exclude) × Fell tx mint r)

  any_step :
      (owner : String) (before : ℕ) (rest : Dict String ℕ)
      → before ≡ balance_before tx mint owner
      → Named rest (any_decrease mint exclude tx.post_token_balances rest)
      → Named
          ((owner, before) ∷ rest)
          (any_decrease mint exclude tx.post_token_balances ((owner, before) ∷ rest))
  unfolding any_decrease
  any_step owner before rest recorded others = elim (Bool-cases (owner == exclude)) [
    | inl e ↦
        onward (any-excluded owner before rest e)
          (λ other. absurd (other ((text_key.agrees owner exclude).0 e)))
    | inr e ↦ elim (scan_lem mint owner before tx.post_token_balances false) [
      | inl (s, (row, (m, (hit, low)))) ↦
          stop (any-low owner before rest e s) e
            (inl (row, (m, (hits-RowOf owner row hit, subst (λ n. row.amount < n) recorded low))))
      | inr (inl (s, (high, inl f))) ↦ cc f
      | inr (inl (s, (high, inr (row, (m, hit))))) ↦
          onward (any-high owner before rest e s) (λ other fell. elim fell [
            | inl (r, (m', (of, low))) ↦
                not_low (All-mem _ r tx.post_token_balances m' high (RowOf-hits owner r of))
                  (subst (λ n. r.amount < n) (sym recorded) low)
            | inr (positive, gone) ↦
                All-mem _ row tx.post_token_balances m gone (hits-RowOf owner row hit)
          ])
      | inr (inr (s, (f, gone))) ↦ elim (Bool-cases (ltb 0 before)) [
        | inl p ↦
            stop (any-gone owner before rest e s p) e
              (inr (subst (λ n. 0 < n) recorded (positive p), All-none tx.post_token_balances gone))
        | inr p ↦ onward (any-empty owner before rest e s p) (λ other fell. elim fell [
          | inl (r, (m', (of, low))) ↦
              cc (sym (All-mem _ r tx.post_token_balances m' gone) ∙ RowOf-hits owner r of)
          | inr (some_positive, none_left) ↦
              absurd (zero_before p (subst (λ n. 0 < n) (sym recorded) some_positive))
        ])
      ]
    ]
  ]
    where
      onward :
          {r : String}
          → r ≡ any_decrease mint exclude tx.post_token_balances rest
          → (owner ≢ exclude → Fell tx mint owner → ⊥)
          → Named ((owner, before) ∷ rest) r
      onward e n =
          subst (Named ((owner, before) ∷ rest)) (sym e)
            (elim others [ inl (r, a) ↦ inl (r, (n, a)) | inr found ↦ inr found ])

      stop :
          {r : String}
          → r ≡ owner
          → (owner == exclude) ≡ false
          → Fell tx mint owner
          → Named ((owner, before) ∷ rest) r
      stop e n fell =
          subst (Named ((owner, before) ∷ rest)) (sym e)
            (inr ((λ p. cc (sym n ∙ (text_key.agrees owner exclude).1 p)), fell))

      not_low : {a b : ℕ} → b ≤ a → a < b → ⊥
      not_low p q = omega arith

      positive : ltb 0 before ≡ true → 0 < before
      positive p = ground arith

      zero_before : ltb 0 before ≡ false → 0 < before → ⊥
      zero_before p q = ground arith

      All-none :
          (rows : List TokenBalance)
          → All (λ row. hits mint owner before row ≡ false) rows
          → All (λ row. RowOf mint owner row → ⊥) rows
      All-none [] a = tt
      All-none (row ∷ rows) a = ((λ of. cc (sym a.0 ∙ RowOf-hits owner row of)), All-none rows a.1)

  pub any_lem :
      (pre : Dict String ℕ)
      → All (λ e. e.1 ≡ balance_before tx mint e.0) pre
      → Named pre (any_decrease mint exclude tx.post_token_balances pre)
  unfolding any_decrease
  any_lem [] h = inl (refl, tt)
  any_lem ((owner, before) ∷ rest) h = any_step owner before rest h.0 (any_lem rest h.1)
