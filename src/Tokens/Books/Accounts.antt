-- ===== src/Tokens/Books/Accounts.antt =====
-- What each operation does to the balances of one account.
-- A grant of a positive amount.
use aeon_backend.Tokens.{debit, lock_amount, refund, unlock_amount}
use aeon_backend.Base.Int.{
  add64, add64_nonneg, int_laws, pos, sub64, sub64_nonneg, ℤ, ◌+ℤ◌, ◌-ℤ◌, ◌<ℤ◌, ◌≤ℤ◌,
}
use aeon_backend.Base.{arith, ◌^◌, ◌≡◌}
use aeon_backend.Store.{AccountToken}
use aeon_backend.Tokens.Books.{Balanced}

pub grant-Balanced :
    (t : AccountToken) (n l p : ℤ)
    → pos 0 <ℤ n
    → pos 0 ≤ℤ l
    → pos 0 ≤ℤ p
    → t.token_balance +ℤ n <ℤ pos (2 ^ 63)
    → Balanced t l p
    → Balanced (lock_amount n t) (l +ℤ n) p
grant-Balanced t n l p h hl hp fits b =
    let e₁ : add64 t.token_balance n ≡ t.token_balance +ℤ n =
      add64_nonneg t.token_balance n (grind (int_laws, b)) (omega arith) fits in
    let e₂ : add64 t.locked_balance n ≡ t.locked_balance +ℤ n =
      add64_nonneg t.locked_balance n (grind (int_laws, b)) (omega arith) (grind (int_laws, b)) in
    record {
      total = rw (e₁, e₂) (grind int_laws);
      held = rw e₂ (grind int_laws);
      solvent = b.solvent;
      small = rw e₁ fits;
    }

-- A locked row of the account is settled.
pub settle-Balanced :
    (t : AccountToken) (n l l' p : ℤ)
    → pos 0 <ℤ n
    → n ≤ℤ l
    → pos 0 ≤ℤ p
    → l' +ℤ n ≡ l
    → Balanced t l p
    → Balanced (unlock_amount n t) l' p
settle-Balanced t n l l' p h hl hp e b =
    let e₁ : sub64 t.locked_balance n ≡ t.locked_balance -ℤ n =
      sub64_nonneg t.locked_balance n (omega arith) (grind (int_laws, b)) (grind (int_laws, b)) in
    let e₂ : add64 t.withdrawable_balance n ≡ t.withdrawable_balance +ℤ n =
      add64_nonneg t.withdrawable_balance n b.solvent (omega arith) (grind (int_laws, b)) in
    record {
      total = rw (e₁, e₂) (grind int_laws);
      held = rw e₁ (grind int_laws);
      solvent = rw e₂ (grind int_laws);
      small = b.small;
    }

-- A withdrawal takes an amount that is covered.
pub withdraw-Balanced :
    (t : AccountToken) (n l p : ℤ)
    → pos 0 <ℤ n
    → n ≤ℤ t.withdrawable_balance
    → pos 0 ≤ℤ l
    → pos 0 ≤ℤ p
    → Balanced t l p
    → Balanced (debit n t) l (p +ℤ n)
withdraw-Balanced t n l p h cover hl hp b =
    let e₁ : sub64 t.withdrawable_balance n ≡ t.withdrawable_balance -ℤ n =
      sub64_nonneg t.withdrawable_balance n (omega arith) cover (grind (int_laws, b)) in
    record {
      total = rw e₁ (grind int_laws);
      held = b.held;
      solvent = rw e₁ (omega int_laws);
      small = b.small;
    }

-- A rejected withdrawal is refunded.
pub refund-Balanced :
    (t : AccountToken) (n l p p' : ℤ)
    → pos 0 <ℤ n
    → pos 0 ≤ℤ l
    → pos 0 ≤ℤ p'
    → p' +ℤ n ≡ p
    → Balanced t l p
    → Balanced (refund n t) l p'
refund-Balanced t n l p p' h hl hp e b =
    let e₁ : add64 t.withdrawable_balance n ≡ t.withdrawable_balance +ℤ n =
      add64_nonneg t.withdrawable_balance n b.solvent (omega arith) (grind (int_laws, b)) in
    record {
      total = rw e₁ (grind int_laws);
      held = b.held;
      solvent = rw e₁ (omega (int_laws, b.solvent));
      small = b.small;
    }
