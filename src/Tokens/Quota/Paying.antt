-- ===== src/Tokens/Quota/Paying.antt =====
-- The second loop of `ProcessAutoWithdrawals` keeps a running total equal to the sum over the map,
-- and the sum below its limit.
use aeon_backend.Base.{
  Bool, List, String, false, if◌then◌else◌, some, true, ℕ, ◌^◌, ◌≡◌, ◌⊎◌, ap, inl, sym, ◌∙◌,
  nat_key, All, Bool-cases, [], arith, inr, leb, length, refl, subst, ◌∷◌,
}
use aeon_backend.Tokens.{
  Limits, Run, Usage, add_daily, add_hourly, is_paid, judge, paid_row, pays, apply_verdict, Verdict,
  delayed, is_queued, over_global_daily, over_single, over_user_daily, pay_rows,
}
use aeon_backend.Base.Int.{add64, pos, ℤ, ◌<ℤ◌, ◌≤ℤ◌, +ℤ_cancel, ◌+ℤ◌, +ℤ-zero, add64_nonneg}
use aeon_backend.Base.Dict.{insert, lookup, Dict}
use aeon_backend.Store.{
  Withdrawal, new, WithdrawalStatus, confirmed, manual_review, queued, rejected, submitted,
}
use aeon_backend.Tokens.Quota.Measure.{
  Positive, amount_weight, paid_weight, paid-le-amount, paid_nonneg,
}
use aeon_backend.Base.Rows.{sum_by, All-insert, All-lookup, sum_by-insert, Distinct, Holds}
use aeon_backend.Tokens.Books.Payments.{apply_verdict-Holds}

module _ (l : Limits) (now : ℕ) (stamp : String) (clock : ℕ) (f : Usage → ℤ) (t : Withdrawal → Bool)
    (cap : ℤ)
    (pays_use : (row : Withdrawal) (u : Usage)
      → f (add_hourly row.amount (add_daily row.account_id row.amount u))
        ≡ (if t (paid_row now stamp row) then add64 (f u) row.amount else f u))
    (judged : (row : Withdrawal) (u : Usage)
      → judge l u row ≡ pays
      → t (paid_row now stamp row) ≡ true
      → add64 (f u) row.amount ≤ℤ cap) where
  pub record Tracks (r : Run) : Type 0 where
    pub counted : f r.usage ≡ sum_by (paid_weight t) r.store.withdrawals
    pub positive : Positive r.store.withdrawals
    pub fits : sum_by amount_weight r.store.withdrawals <ℤ pos (2 ^ 63)

  -- The sum has not moved, or is within the limit.
  abbrev pub Within : Run → Run → Type 0
  Within r r' =
      (sum_by (paid_weight t) r'.store.withdrawals ≡ sum_by (paid_weight t) r.store.withdrawals)
      ⊎ (sum_by (paid_weight t) r'.store.withdrawals ≤ℤ cap)

  -- A row that is not paid, before or after.
  unpaid-Tracks :
      (r : Run) (id : ℕ) (row row' : Withdrawal) (o : List Withdrawal)
      → Tracks r
      → lookup id r.store.withdrawals ≡ some row
      → row'.amount ≡ row.amount
      → is_paid row.status ≡ false
      → is_paid row'.status ≡ false
      → let r' : Run = record r {
        out = o;
        store = record (r.store) { withdrawals = insert id row' r.store.withdrawals };
      } in
        Tracks r' × Within r r'
  unpaid-Tracks r id row row' o k held same old new = (
    record {
      counted = k.counted ∙ sym kept;
      positive = All-insert _ id row' r.store.withdrawals (rw same positive) k.positive;
      fits = rw total k.fits;
    },
    inl kept,
  )
    where
      positive : pos 0 <ℤ row.amount
      positive = All-lookup _ id row r.store.withdrawals k.positive held

      total :
          sum_by amount_weight (insert id row' r.store.withdrawals)
          ≡ sum_by amount_weight r.store.withdrawals
      total = +ℤ_cancel _ (sum_by amount_weight r.store.withdrawals) row.amount (
          sum_by-insert amount_weight id row' row r.store.withdrawals held
          ∙ ap (λ x. sum_by amount_weight r.store.withdrawals +ℤ x) same)

      no_weight : (x : Withdrawal) → is_paid x.status ≡ false → paid_weight t x ≡ pos 0
      no_weight x e = rw e

      kept :
          sum_by (paid_weight t) (insert id row' r.store.withdrawals)
          ≡ sum_by (paid_weight t) r.store.withdrawals
      kept = +ℤ_cancel _ (sum_by (paid_weight t) r.store.withdrawals) (paid_weight t row) (
          sum_by-insert (paid_weight t) id row' row r.store.withdrawals held
          ∙ ap (λ x. sum_by (paid_weight t) r.store.withdrawals +ℤ x)
              (no_weight row' new ∙ sym (no_weight row old)))

  -- A row that is paid now.
  module _ (r : Run) (id : ℕ) (row : Withdrawal) (k : Tracks r)
      (held : lookup id r.store.withdrawals ≡ some row) (old : is_paid row.status ≡ false) where
    abbrev before : ℤ
    before = sum_by (paid_weight t) r.store.withdrawals

    abbrev paid_map : Dict ℕ Withdrawal
    paid_map = insert id (paid_row now stamp row) r.store.withdrawals

    row_positive : pos 0 <ℤ row.amount
    row_positive = All-lookup _ id row r.store.withdrawals k.positive held

    map-Positive : Positive paid_map
    map-Positive =
        All-insert _ id (paid_row now stamp row) r.store.withdrawals row_positive k.positive

    total_same : sum_by amount_weight paid_map ≡ sum_by amount_weight r.store.withdrawals
    total_same =
        +ℤ_cancel _ (sum_by amount_weight r.store.withdrawals) row.amount
          (sum_by-insert amount_weight id (paid_row now stamp row) row r.store.withdrawals held)

    grown : sum_by (paid_weight t) paid_map ≡ before +ℤ paid_weight t (paid_row now stamp row)
    grown =
        let z : paid_weight t row ≡ pos 0 = rw old in
        sym (+ℤ-zero _)
        ∙ rw z at
            (sum_by-insert (paid_weight t) id (paid_row now stamp row) row r.store.withdrawals held)

    -- The addition of the row is exact, since the counted rows are some of all rows.
    counted_exact :
        t (paid_row now stamp row) ≡ true
        → add64 (f r.usage) row.amount ≡ sum_by (paid_weight t) paid_map
    counted_exact yes_t =
        let g : sum_by (paid_weight t) paid_map ≡ before +ℤ row.amount = rw yes_t at grown in
        let some_of_all : sum_by (paid_weight t) paid_map ≤ℤ sum_by amount_weight paid_map =
          paid-le-amount t paid_map map-Positive in
        rw (k.counted, g)
          (add64_nonneg before row.amount (paid_nonneg t r.store.withdrawals k.positive)
            (omega (arith, row_positive)) (room (rw (g, total_same) at some_of_all)))
      where
        room :
            before +ℤ row.amount ≤ℤ sum_by amount_weight r.store.withdrawals
            → before +ℤ row.amount <ℤ pos (2 ^ 63)
        room le = omega (arith, k.fits)

    paid-Tracks :
        judge l r.usage row ≡ pays
        → let r' = apply_verdict now stamp clock (id, row) pays r in Tracks r' × Within r r'
    unfolding apply_verdict
    paid-Tracks judgement = elim (Bool-cases (t (paid_row now stamp row))) [
      | inl e ↦ (
        record {
          counted = pays_use row r.usage ∙ rw e (counted_exact e);
          positive = map-Positive;
          fits = rw total_same k.fits;
        },
        inr (subst (λ x. x ≤ℤ cap) (counted_exact e) (judged row r.usage judgement e)),
      )
      | inr e ↦ (
        record {
          counted =
              pays_use row r.usage ∙ rw e (k.counted ∙ sym (+ℤ-zero before) ∙ sym (rw e at grown));
          positive = map-Positive;
          fits = rw total_same k.fits;
        },
        inl (rw e at grown ∙ +ℤ-zero before),
      )
    ]

  -- Any row of the queue, by the verdict on it.
  judge-Tracks :
      (r : Run) (id : ℕ) (row : Withdrawal) (v : Verdict)
      → Tracks r
      → lookup id r.store.withdrawals ≡ some row
      → is_paid row.status ≡ false
      → judge l r.usage row ≡ v
      → let r' = apply_verdict now stamp clock (id, row) v r in Tracks r' × Within r r'
  judge-Tracks r id row over_single k held old e =
      unfold apply_verdict in unpaid-Tracks r id row _ _ k held refl old refl
  judge-Tracks r id row over_user_daily k held old e =
      unfold apply_verdict in unpaid-Tracks r id row _ _ k held refl old refl
  judge-Tracks r id row delayed k held old e =
      unfold apply_verdict in unpaid-Tracks r id row _ _ k held refl old refl
  judge-Tracks r id row over_global_daily k held old e =
      unfold apply_verdict in unpaid-Tracks r id row _ _ k held refl old refl
  judge-Tracks r id row pays k held old e = paid-Tracks r id row k held old e

  Within-trans : (r₁ r₂ r₃ : Run) → Within r₁ r₂ → Within r₂ r₃ → Within r₁ r₃
  Within-trans r₁ r₂ r₃ h (inr q) = inr q
  Within-trans r₁ r₂ r₃ (inl p) (inl q) = inl (q ∙ p)
  Within-trans r₁ r₂ r₃ (inr p) (inl q) = inr (subst (λ x. x ≤ℤ cap) (sym q) p)

  -- The whole loop.
  pub pay_rows-Within :
      (limit : ℕ) (es : Dict ℕ Withdrawal) (r : Run)
      → Tracks r
      → Holds r.store.withdrawals es
      → Distinct es
      → All (λ e. is_queued e.1.status ≡ true) es
      → Within r (pay_rows l limit now stamp clock es r)
  unfolding pay_rows
  pay_rows-Within limit [] r k h d q = inl refl
  pay_rows-Within limit ((id, row) ∷ es) r k h d q = elim (Bool-cases (leb limit (length r.out))) [
    | inl full ↦ rw full (inl refl)
    | inr more ↦ rw more (
        Within-trans r r' (pay_rows l limit now stamp clock es r') one.1 (
          pay_rows-Within limit es r' one.0
            (apply_verdict-Holds now stamp clock (id, row) es r (judge l r.usage row) d.0 h.1) d.1
            q.1))
  ]
    where
      r' : Run
      r' = apply_verdict now stamp clock (id, row) (judge l r.usage row) r

      unpaid_of : (x : WithdrawalStatus) → is_queued x ≡ true → is_paid x ≡ false
      unpaid_of queued e = refl
      unpaid_of manual_review e = cc
      unpaid_of submitted e = cc
      unpaid_of confirmed e = cc
      unpaid_of rejected e = cc

      one : Tracks r' × Within r r'
      one = judge-Tracks r id row (judge l r.usage row) k h.0 (unpaid_of row.status q.0) refl
