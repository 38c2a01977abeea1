-- ===== src/Access/Tickets/Admission.antt =====
-- When a ticket admits.
use aeon_backend.Base.{
  Error, String, err, false, none, refl, some, true, ℕ, ◌==◌, ◌≡◌, text_key, Bool-cases, Result,
  arith, inl, inr, ltb, ok, sym, ◌≢◌, Option-cases, ap, ◌∙◌, ◌≤◌,
}
use aeon_backend.Store.{GameTicket, Store}
use aeon_backend.Base.Dict.{lookup}
use aeon_backend.Access.Tickets.{
  consume_ticket, admit_row, consumed_ticket, put_ticket, session_admits,
}
use aeon_backend.Base.Text.{trim_space}

-- The branches of a consumption, by the row.
module _ (ticket server_raw : String) (now : ℕ) (s : Store) where
  pub consume_ticket-blank :
      (trim_space server_raw == "") ≡ true
      → consume_ticket ticket server_raw now s ≡ (err Error.forbidden, s)
  unfolding consume_ticket
  consume_ticket-blank e = rw (consume_ticket, e) refl

  pub consume_ticket-found :
      (row : GameTicket)
      → (trim_space server_raw == "") ≡ false
      → lookup ticket s.tickets ≡ some row
      → consume_ticket ticket server_raw now s ≡ admit_row ticket (trim_space server_raw) now row s
  unfolding consume_ticket
  consume_ticket-found row b e = rw (consume_ticket, b, e) refl

  pub consume_ticket-missing :
      (trim_space server_raw == "") ≡ false
      → lookup ticket s.tickets ≡ none
      → consume_ticket ticket server_raw now s ≡ (err Error.not_found, s)
  unfolding consume_ticket
  consume_ticket-missing b e = rw (consume_ticket, b, e) refl

-- What must hold of a ticket's row for it to admit.
abbrev pub Admits : String → ℕ → Store → GameTicket → Type 0
Admits server now s row =
    (row.consumed ≡ false)
    × (now ≤ row.expires_at)
    × (row.server_id ≡ server)
    × (server ≢ "")
    × (session_admits row s ≡ true)

abbrev the_error : Error → Result GameTicket
the_error e = err e

admit_row-ok :
    (ticket server : String) (now : ℕ) (row r : GameTicket) (s : Store)
    → server ≢ ""
    → (admit_row ticket server now row s).0 ≡ ok r
    → (Admits server now s row)
      × (r ≡ consumed_ticket row)
      × ((admit_row ticket server now row s).1 ≡ put_ticket ticket (consumed_ticket row) s)
unfolding admit_row
admit_row-ok ticket server now row r s filled h = elim (Bool-cases row.consumed) [
  | inl a ↦ absurd (refused (rw a at h))
  | inr a ↦ elim (Bool-cases (ltb row.expires_at now)) [
    | inl b ↦ absurd (refused (rw (a, b) at h))
    | inr b ↦ elim (Bool-cases (row.server_id == "")) [
      | inl c ↦ absurd (refused (rw (a, b, c) at h))
      | inr c ↦ elim (Bool-cases (row.server_id == server)) [
        | inr d ↦ absurd (refused (rw (a, b, c, d) at h))
        | inl d ↦ elim (Bool-cases (session_admits row s)) [
          | inr f ↦ absurd (refused (rw (a, b, c, d, f) at h))
          | inl f ↦ (
            (a, ground arith, (text_key.agrees row.server_id server).0 d, filled, f),
            sym (same (rw (a, b, c, d, f) at h)),
            rw (a, b, c, d, f) refl,
          )
        ]
      ]
    ]
  ]
]
  where
    refused : {e : Error} → the_error e ≡ ok r → ⊥
    refused h = cc h

    same : {x : GameTicket} → ok x ≡ ok r → x ≡ r
    same h = cc h

-- `ConsumeTicket` succeeds only on a ticket that is there, not consumed and not expired, for the
-- named server, which is not blank, and while its session is active and of the same account; it
-- returns that ticket as consumed and writes that row, and nothing else, to the store.
pub consume_ticket-ok :
    (ticket server_raw : String) (now : ℕ) (r : GameTicket) (s : Store)
    → (consume_ticket ticket server_raw now s).0 ≡ ok r
    → (row : GameTicket) × (lookup ticket s.tickets ≡ some row)
      × Admits (trim_space server_raw) now s row
      × (r ≡ consumed_ticket row)
      × ((consume_ticket ticket server_raw now s).1 ≡ put_ticket ticket (consumed_ticket row) s)
consume_ticket-ok ticket server_raw now r s h = elim (Bool-cases (trim_space server_raw == "")) [
  | inl b ↦
      absurd (refused (sym (ap (λ x. x.0) (consume_ticket-blank ticket server_raw now s b)) ∙ h))
  | inr b ↦ elim (Option-cases (lookup ticket s.tickets)) [
    | inl e ↦
        absurd
          (refused (sym (ap (λ x. x.0) (consume_ticket-missing ticket server_raw now s b e)) ∙ h))
    | inr (row, e) ↦
        let q = consume_ticket-found ticket server_raw now s row b e in
        let k =
          admit_row-ok ticket (trim_space server_raw) now row r s (named b)
            (sym (ap (λ x. x.0) q) ∙ h) in
        (row, e, k.0, k.1, ap (λ x. x.1) q ∙ k.2)
  ]
]
  where
    refused : {e : Error} → the_error e ≡ ok r → ⊥
    refused h = cc h

    named : (trim_space server_raw == "") ≡ false → trim_space server_raw ≢ ""
    named b p = cc ((text_key.agrees (trim_space server_raw) "").1 p)
