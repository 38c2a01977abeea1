-- ===== src/Tokens/Quota/Measure.antt =====
-- One of the worker's running totals, `f`, that counts the paid rows which pass the test `t`.
use aeon_backend.Base.{
  All, Bool, [], arith, if◌then◌else◌, sym, ℕ, ◌&&◌, ◌^◌, ◌∷◌, ◌≡◌, nat_key, Bool-cases, inl, inr,
  ◌∙◌,
}
use aeon_backend.Base.Int.{+ℤ-zero, add64, int_laws, pos, ℤ, ◌+ℤ◌, ◌<ℤ◌, ◌≤ℤ◌, add64_nonneg}
use aeon_backend.Tokens.{Usage, count_row, count_rows, is_paid}
use aeon_backend.Base.Rows.{All-map, sum_by, sum_by_nonneg}
use aeon_backend.Store.{Withdrawal}
use aeon_backend.Base.Dict.{Dict}

-- What the row counts for.
abbrev pub paid_weight : (Withdrawal → Bool) → Withdrawal → ℤ
paid_weight t r = if is_paid r.status && t r then r.amount else pos 0

abbrev pub amount_weight : Withdrawal → ℤ
amount_weight r = r.amount

abbrev pub Positive : Dict ℕ Withdrawal → Type 0
Positive m = All (λ e. pos 0 <ℤ e.1.amount) m

pub paid_weight-le :
    (t : Withdrawal → Bool) (r : Withdrawal)
    → pos 0 <ℤ r.amount
    → (pos 0 ≤ℤ paid_weight t r) × (paid_weight t r ≤ℤ r.amount)
paid_weight-le t r p = (ground arith, ground arith)

-- The counted rows are some of all rows.
pub paid-le-amount :
    (t : Withdrawal → Bool) (m : Dict ℕ Withdrawal)
    → Positive m
    → sum_by (paid_weight t) m ≤ℤ sum_by amount_weight m
paid-le-amount t [] p = omega arith
paid-le-amount t ((k, r) ∷ m) p = omega (int_laws, paid_weight-le t r p.0, paid-le-amount t m p.1)

pub amounts_nonneg : (m : Dict ℕ Withdrawal) → Positive m → pos 0 ≤ℤ sum_by amount_weight m
amounts_nonneg m p = sum_by_nonneg amount_weight m (All-map _ _ (λ e h. omega arith) m p)

pub paid_nonneg :
    (t : Withdrawal → Bool) (m : Dict ℕ Withdrawal) → Positive m → pos 0 ≤ℤ sum_by (paid_weight t) m
paid_nonneg t m p = sum_by_nonneg (paid_weight t) m (All-map _ _ (λ e h. ground arith) m p)

module _ (now : ℕ) (f : Usage → ℤ) (t : Withdrawal → Bool)
    (counts : (row : Withdrawal) (u : Usage)
      → f (count_row now row u)
        ≡ (if is_paid row.status && t row then add64 (f u) row.amount else f u)) where
  count_row-eq :
      (row : Withdrawal) (u : Usage)
      → pos 0 <ℤ row.amount
      → pos 0 ≤ℤ f u
      → f u +ℤ row.amount <ℤ pos (2 ^ 63)
      → f (count_row now row u) ≡ f u +ℤ paid_weight t row
  count_row-eq row u p n fits = elim (Bool-cases (is_paid row.status && t row)) [
    | inl e ↦ rw e (counts row u ∙ rw e (add64_nonneg (f u) row.amount n (omega arith) fits))
    | inr e ↦ rw e (counts row u ∙ rw e (sym (+ℤ-zero (f u))))
  ]

  -- The first loop computes the sum over the rows that it visits.
  pub count_rows-eq-sum :
      (es : Dict ℕ Withdrawal) (u : Usage)
      → Positive es
      → pos 0 ≤ℤ f u
      → f u +ℤ sum_by amount_weight es <ℤ pos (2 ^ 63)
      → f (count_rows now es u) ≡ f u +ℤ sum_by (paid_weight t) es
  unfolding count_rows
  count_rows-eq-sum [] u p n fits = sym (+ℤ-zero (f u))
  count_rows-eq-sum ((k, row) ∷ es) u p n fits =
      let e : f (count_row now row u) ≡ f u +ℤ paid_weight t row =
        count_row-eq row u p.0 n (omega (int_laws, amounts_nonneg es p.1)) in
      count_rows-eq-sum es (count_row now row u) p.1
        (rw e (omega (int_laws, paid_weight-le t row p.0)))
        (rw e (omega (int_laws, paid_weight-le t row p.0)))
      ∙ rw e (omega int_laws)
