-- ===== src/Access/Tickets/Once.antt =====
-- A ticket admits at most once.
use aeon_backend.Base.{
  Bool-cases, Error, List, Option-cases, Result, String, [], ap, err, inl, inr, ltb, ok, refl, some,
  subst, sym, true, ℕ, ◌==◌, ◌∙◌, ◌∷◌, ◌≡◌, text_key,
}
use aeon_backend.Base.Dict.{lookup, lookup-insert, lookup-insert_self}
use aeon_backend.Access.Tickets.{
  admit_row, consume_ticket, consumed_ticket, put_ticket, session_admits,
}
use aeon_backend.Base.Text.{trim_space}
use aeon_backend.Store.{GameTicket, Store}
use aeon_backend.Access.Sessions.{
  is_active, revoke_account_session, touch_account_session, admin_revoke_account_sessions,
}
use aeon_backend.Access.Tickets.Admission.{
  consume_ticket-blank, consume_ticket-found, consume_ticket-missing, consume_ticket-ok,
}

-- A ticket that is there and was consumed.
pub record Used (ticket : String) (s : Store) : Type 0 where
  pub row : GameTicket
  pub there : lookup ticket s.tickets ≡ some row
  pub over : row.consumed ≡ true

Used-put :
    (t m : String) (row : GameTicket) (s : Store)
    → row.consumed ≡ true
    → Used t s
    → Used t (put_ticket m row s)
unfolding put_ticket
Used-put t m row s over d = elim (Bool-cases (m == t)) [
  | inl same ↦ record {
    row = row;
    there = lookup-insert t m row s.tickets ∙ rw same refl;
    over = over;
  }
  | inr other ↦ record {
    row = d.row;
    there = lookup-insert t m row s.tickets ∙ rw other d.there;
    over = d.over;
  }
]

-- What may happen to the store afterwards: tickets are presented, sessions are touched and revoked,
-- one of them or all of an account.
pub data LaterStep : Type 0 where
  present : String → String → ℕ → LaterStep
  revoke touch : String → ℕ → LaterStep
  revoke_all : ℕ → ℕ → LaterStep

abbrev pub later_step : LaterStep → Store → Store
later_step (present t server now) s = (consume_ticket t server now s).1
later_step (revoke id now) s = revoke_account_session id now s
later_step (touch id now) s = (touch_account_session id now s).1
later_step (revoke_all account now) s = (admin_revoke_account_sessions account now s).1

abbrev pub later_steps : List LaterStep → Store → Store
later_steps [] s = s
later_steps (u ∷ us) s = later_steps us (later_step u s)

Used-same : (t : String) (s s' : Store) → s'.tickets ≡ s.tickets → Used t s → Used t s'
Used-same t s s' e d = record { row = d.row; there = ap (lookup t) e ∙ d.there; over = d.over }

touch-tickets :
    (id : String) (now : ℕ) (s : Store) → (touch_account_session id now s).1.tickets ≡ s.tickets
unfolding touch_account_session
touch-tickets id now s = elim (Option-cases (lookup id s.sessions)) [
  | inl e ↦ rw (touch_account_session, e) refl
  | inr (row, e) ↦ elim (Bool-cases (is_active row.status)) [
    | inl a ↦ rw (touch_account_session, e, a) refl
    | inr a ↦ rw (touch_account_session, e, a) refl
  ]
]

admit_row-Used :
    (t m server : String) (now : ℕ) (row : GameTicket) (s : Store)
    → Used t s
    → Used t (admit_row m server now row s).1
unfolding admit_row
admit_row-Used t m server now row s d = elim (Bool-cases row.consumed) [
  | inl a ↦ rw a d
  | inr a ↦ elim (Bool-cases (ltb row.expires_at now)) [
    | inl b ↦ rw (a, b) d
    | inr b ↦ elim (Bool-cases (row.server_id == "")) [
      | inl c ↦ rw (a, b, c) d
      | inr c ↦ elim (Bool-cases (row.server_id == server)) [
        | inr e ↦ rw (a, b, c, e) d
        | inl e ↦ elim (Bool-cases (session_admits row s)) [
          | inr f ↦ rw (a, b, c, e, f) d
          | inl f ↦ rw (a, b, c, e, f) (Used-put t m (consumed_ticket row) s refl d)
        ]
      ]
    ]
  ]
]

present-Used :
    (t m server_raw : String) (now : ℕ) (s : Store)
    → Used t s
    → Used t (consume_ticket m server_raw now s).1
present-Used t m server_raw now s d = elim (Bool-cases (trim_space server_raw == "")) [
  | inl b ↦ moved (consume_ticket-blank m server_raw now s b) d
  | inr b ↦ elim (Option-cases (lookup m s.tickets)) [
    | inl e ↦ moved (consume_ticket-missing m server_raw now s b e) d
    | inr (row, e) ↦
        moved (consume_ticket-found m server_raw now s row b e)
          (admit_row-Used t m (trim_space server_raw) now row s d)
  ]
]
  where
    moved : {q r : Result GameTicket × Store} → q ≡ r → Used t r.1 → Used t q.1
    moved e d = subst (λ (r : Result GameTicket × Store). Used t r.1) (sym e) d

later_step-Used : (t : String) (u : LaterStep) (s : Store) → Used t s → Used t (later_step u s)
later_step-Used t (present m server now) s d = present-Used t m server now s d
later_step-Used t (revoke id now) s d =
    Used-same t s (revoke_account_session id now s) (unfold revoke_account_session in refl) d
later_step-Used t (touch id now) s d =
    Used-same t s (touch_account_session id now s).1 (touch-tickets id now s) d
later_step-Used t (revoke_all account now) s d =
    Used-same t s (admin_revoke_account_sessions account now s).1
      (unfold admin_revoke_account_sessions in refl) d

later_steps-Used :
    (t : String) (us : List LaterStep) (s : Store) → Used t s → Used t (later_steps us s)
later_steps-Used t [] s d = d
later_steps-Used t (u ∷ us) s d = later_steps-Used t us (later_step u s) (later_step-Used t u s d)

Used-refused :
    (t server_raw : String) (now : ℕ) (s : Store)
    → Used t s
    → consume_ticket t server_raw now s ≡ (err Error.forbidden, s)
unfolding admit_row
Used-refused t server_raw now s d = elim (Bool-cases (trim_space server_raw == "")) [
  | inl b ↦ consume_ticket-blank t server_raw now s b
  | inr b ↦ consume_ticket-found t server_raw now s d.row b d.there ∙ rw (admit_row, d.over) refl
]

-- Once a ticket has been consumed, every later consumption of it is forbidden and changes nothing,
-- whatever tickets were presented and sessions touched or revoked, one or all of an account, in
-- between.
pub consume_ticket-once :
    (t server_raw server_raw' : String) (now now' : ℕ) (r : GameTicket) (us : List LaterStep)
    (s : Store)
    → (consume_ticket t server_raw now s).0 ≡ ok r
    → let later = later_steps us (consume_ticket t server_raw now s).1 in
      consume_ticket t server_raw' now' later ≡ (err Error.forbidden, later)
consume_ticket-once t server_raw server_raw' now now' r us s h =
    let k = consume_ticket-ok t server_raw now r s h in
    Used-refused t server_raw' now' _ (
      later_steps-Used t us (consume_ticket t server_raw now s).1
        (subst (λ (x : Store). Used t x) (sym k.4) (written k.0)))
  where
    written : (row : GameTicket) → Used t (put_ticket t (consumed_ticket row) s)
    written row = record {
      row = consumed_ticket row;
      there = unfold put_ticket in lookup-insert_self t (consumed_ticket row) s.tickets;
      over = refl;
    }
