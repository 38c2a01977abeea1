-- ===== src/Access/Tickets.antt =====
-- `SaveTicket` and `ConsumeTicket` of internal/platform/store/store.go.
pub mod Admission
pub mod Once
use aeon_backend.Base.{
  Bool, Error, Result, String, err, false, forbidden, if◌then◌else◌, ltb, none, not, not_found, ok,
  some, true, ℕ, ◌&&◌, ◌==◌, ◌||◌, text_key, nat_key,
}
use aeon_backend.Base.Text.{trim_space}
use aeon_backend.Base.Dict.{insert, lookup}
use aeon_backend.Store.{GameTicket, Store}
use aeon_backend.Access.Sessions.{is_active}

unfoldable pub put_ticket : String → GameTicket → Store → Store
put_ticket ticket row s = record s { tickets = insert ticket row s.tickets }

-- `SaveTicket`
unfoldable pub save_ticket : GameTicket → Store → Store
unfolding put_ticket
save_ticket row s = put_ticket row.ticket row s

abbrev pub consumed_ticket : GameTicket → GameTicket
consumed_ticket row = record row { consumed = true }

-- The session that a ticket names is there, of the ticket's account, and active.
abbrev pub session_admits : GameTicket → Store → Bool
session_admits row s = elim (lookup row.session_id s.sessions) [
  | none ↦ false
  | some session ↦ (session.account_id == row.account_id) && is_active session.status
]

-- The branches of `ConsumeTicket` on a ticket that is there.
unfoldable pub admit_row : String → String → ℕ → GameTicket → Store → Result GameTicket × Store
unfolding put_ticket
admit_row ticket server now row s =
    if row.consumed || ltb row.expires_at now
    then (err Error.forbidden, s)
    else if (row.server_id == "") || not (row.server_id == server)
    then (err Error.forbidden, s)
    else if not (session_admits row s)
    then (err Error.forbidden, s)
    else (ok (consumed_ticket row), put_ticket ticket (consumed_ticket row) s)

-- `ConsumeTicket`
unfoldable pub consume_ticket : String → String → ℕ → Store → Result GameTicket × Store
unfolding admit_row trim_space
consume_ticket ticket server_raw now s =
    let server = trim_space server_raw in
    if server == "" then (err Error.forbidden, s) else (elim (lookup ticket s.tickets) [
      | none ↦ (err Error.not_found, s)
      | some row ↦ admit_row ticket server now row s
    ])
