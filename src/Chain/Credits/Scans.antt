-- ===== src/Chain/Credits/Scans.antt =====
-- The inner loop of `findDecreasedOwner` of internal/chain/rpc.go.
use mathlib.Core.List.{Memᴰ}
use aeon_backend.Base.{
  All, Bool, Bool-cases, List, String, [], arith, false, inl, inr, ltb, nat_key, refl, subst, sym,
  text_key, true, ℕ, ◌&&◌, ◌<◌, ◌==◌, ◌||◌, ◌∙◌, ◌∷◌, ◌≡◌, ◌≤◌, ◌⊎◌,
}
use aeon_backend.Chain.Credits.{TokenBalance, scan_owner}

module _ (mint owner : String) (before : ℕ) where
  abbrev pub hits : TokenBalance → Bool
  hits row = (row.owner == owner) && ((mint == "") || (row.mint == mint))

  scan-low :
      (row : TokenBalance) (rows : List TokenBalance) (found : Bool)
      → hits row ≡ true
      → ltb row.amount before ≡ true
      → scan_owner mint owner before (row ∷ rows) found ≡ (true, true)
  unfolding scan_owner
  scan-low row rows found h l = rw (scan_owner, h, l) refl

  scan-high :
      (row : TokenBalance) (rows : List TokenBalance) (found : Bool)
      → hits row ≡ true
      → ltb row.amount before ≡ false
      → scan_owner mint owner before (row ∷ rows) found ≡ scan_owner mint owner before rows true
  unfolding scan_owner
  scan-high row rows found h l = rw (scan_owner, h, l) refl

  scan-miss :
      (row : TokenBalance) (rows : List TokenBalance) (found : Bool)
      → hits row ≡ false
      → scan_owner mint owner before (row ∷ rows) found ≡ scan_owner mint owner before rows found
  unfolding scan_owner
  scan-miss row rows found h = rw (scan_owner, h) refl

  -- A row below the balance was met; or rows of the owner, none of them below it; or no row.
  abbrev pub Scanned : List TokenBalance → Bool → Bool × Bool → Type 0
  Scanned rows found r =
      ((r ≡ (true, true))
        × ((row : TokenBalance) × (Memᴰ row rows × ((hits row ≡ true) × (row.amount < before)))))
      ⊎ (((r ≡ (true, false))
            × (All (λ row. hits row ≡ true → before ≤ row.amount) rows
                × ((found ≡ true) ⊎ ((row : TokenBalance) × (Memᴰ row rows × (hits row ≡ true))))))
          ⊎ ((r ≡ (false, false)) × ((found ≡ false) × All (λ row. hits row ≡ false) rows)))

  pub scan_lem :
      (rows : List TokenBalance) (found : Bool)
      → Scanned rows found (scan_owner mint owner before rows found)
  unfolding scan_owner
  scan_lem [] true = inr (inl (refl, (tt, inl refl)))
  scan_lem [] false = inr (inr (refl, (refl, tt)))
  scan_lem (row ∷ rows) found = elim (Bool-cases (hits row)) [
    | inr h ↦
        subst (Scanned (row ∷ rows) found) (sym (scan-miss row rows found h))
          (elim (scan_lem rows found) [
            | inl (e, (r, (m, p))) ↦ inl (e, (r, (Memᴰ.tail m, p)))
            | inr (inl (e, (a, inl f))) ↦ inr (inl (e, (((λ t. absurd (both h t)), a), inl f)))
            | inr (inl (e, (a, inr (r, (m, p))))) ↦
                inr (inl (e, (((λ t. absurd (both h t)), a), inr (r, (Memᴰ.tail m, p)))))
            | inr (inr (e, (f, a))) ↦ inr (inr (e, (f, (h, a))))
          ])
    | inl h ↦ elim (Bool-cases (ltb row.amount before)) [
      | inl l ↦
          subst (Scanned (row ∷ rows) found) (sym (scan-low row rows found h l))
            (inl (refl, (row, (Memᴰ.head refl, (h, below row l)))))
      | inr l ↦
          subst (Scanned (row ∷ rows) found) (sym (scan-high row rows found h l))
            (elim (scan_lem rows true) [
              | inl (e, (r, (m, p))) ↦ inl (e, (r, (Memᴰ.tail m, p)))
              | inr (inl (e, (a, f))) ↦
                  inr (inl (e, (((λ t. above row l), a), inr (row, (Memᴰ.head refl, h)))))
              | inr (inr (e, (f, a))) ↦ cc f
            ])
    ]
  ]
    where
      both : {b : Bool} → b ≡ false → b ≡ true → ⊥
      both f t = cc (sym f ∙ t)

      below : (row : TokenBalance) → ltb row.amount before ≡ true → row.amount < before
      below row l = ground arith

      above : (row : TokenBalance) → ltb row.amount before ≡ false → before ≤ row.amount
      above row l = ground arith
