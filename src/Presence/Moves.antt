-- ===== src/Presence/Moves.antt =====
-- Players who enter and leave.
use aeon_backend.Base.{
  Bool-cases, Error, Option-cases, Result, String, ap, arith, err, false, inl, inr, none, ok, refl,
  some, subst, suc, sym, text_key, true, ℕ, ◌==◌, ◌∙◌, ◌≡◌, ◌≢◌, nat_key, ==-false_of_ne, ==_refl,
}
use aeon_backend.Base.Dict.{erase, insert, lookup, lookup-update_at_ne}
use aeon_backend.Store.{GameServer, OnlineSession, Store}
use aeon_backend.Presence.{
  count_on, enter_online_session, entered, leave_online_session, other_connection, recount_online,
  with_count,
}
use aeon_backend.Presence.Counting.{count_on-erase, on, count_on-insert, count_on-insert_new}
use aeon_backend.Base.Int.{pos}
use aeon_backend.Presence.Accuracy.{Accurate, recount-Accurate, recount-Accurate_self}
use aeon_backend.Base.Rows.{Distinct}

module _ (account : ℕ) (connection : String) (s : Store) where
  leave-missing :
      lookup account s.online ≡ none
      → leave_online_session account connection s ≡ (err Error.not_found, s)
  unfolding leave_online_session
  leave-missing e = rw (leave_online_session, e) refl

  leave-other :
      (row : OnlineSession)
      → lookup account s.online ≡ some row
      → other_connection connection row ≡ true
      → leave_online_session account connection s ≡ (err Error.not_found, s)
  unfolding leave_online_session
  leave-other row e o = rw (leave_online_session, e, o) refl

  leave-found :
      (row : OnlineSession)
      → lookup account s.online ≡ some row
      → other_connection connection row ≡ false
      → leave_online_session account connection s
        ≡ (ok row, recount_online row.server_id (record s { online = erase account s.online }))
  unfolding leave_online_session
  leave-found row e o = rw (leave_online_session, e, o) refl

-- Where a session is gone or moved, the counts of the other servers stand.
on-other : (id : String) (row : OnlineSession) → (row.server_id == id) ≡ false → on id row ≡ 0
on-other id row e = rw e refl

on-same : (id : String) (row : OnlineSession) → (row.server_id == id) ≡ true → on id row ≡ 1
on-same id row e = rw e refl

-- A leave that goes through keeps the stated number of players right on every server, and makes it
-- right on the server that was left.
left-Accurate :
    (id : String) (account : ℕ) (row : OnlineSession) (s : Store)
    → Distinct s.online
    → lookup account s.online ≡ some row
    → Accurate id s
    → Accurate id (recount_online row.server_id (record s { online = erase account s.online }))
left-Accurate id account row s d there a = elim (Bool-cases (row.server_id == id)) [
  | inl same ↦
      subst (λ x. Accurate id (recount_online x (record s { online = erase account s.online })))
        (sym ((text_key.agrees row.server_id id).0 same))
        (recount-Accurate_self id (record s { online = erase account s.online }))
  | inr apart ↦
      recount-Accurate id row.server_id (record s { online = erase account s.online })
        (λ server found. a server found ∙ ap pos (unchanged apart))
]
  where
    unchanged :
        (row.server_id == id) ≡ false → count_on id s.online ≡ count_on id (erase account s.online)
    unchanged apart =
        omega (arith, count_on-erase id account row s.online d there, on-other id row apart)

-- Leaving keeps the stated number of players right on every server where it was, for any account and
-- connection, where the map of the sessions online lists no account twice.
pub leave-Accurate :
    (id connection : String) (account : ℕ) (s : Store)
    → Distinct s.online
    → Accurate id s
    → Accurate id (leave_online_session account connection s).1
leave-Accurate id connection account s d a = elim (Option-cases (lookup account s.online)) [
  | inl e ↦ moved (leave-missing account connection s e) a
  | inr (row, e) ↦ elim (Bool-cases (other_connection connection row)) [
    | inl o ↦ moved (leave-other account connection s row e o) a
    | inr o ↦
        moved (leave-found account connection s row e o) (left-Accurate id account row s d e a)
  ]
]
  where
    moved : {q r : Result OnlineSession × Store} → q ≡ r → Accurate id r.1 → Accurate id q.1
    moved e b = subst (λ (r : Result OnlineSession × Store). Accurate id r.1) (sym e) b

enter-registered :
    (row : OnlineSession) (now : ℕ) (s : Store) (server : GameServer)
    → lookup row.server_id s.servers ≡ some server
    → enter_online_session row now s ≡ (
      ok (entered now row),
      recount_online row.server_id
          (record s { online = insert row.account_id (entered now row) s.online }),
    )
unfolding enter_online_session
enter-registered row now s server e = rw (enter_online_session, e) refl

-- Entering a registered server keeps the stated number of players right on every server where it
-- was, and makes it right on the one entered, if the account is not online on another server.
pub enter-Accurate :
    (id : String) (row : OnlineSession) (now : ℕ) (s : Store) (server : GameServer)
    → lookup row.server_id s.servers ≡ some server
    → ((old : OnlineSession)
        → lookup row.account_id s.online ≡ some old
        → old.server_id ≡ row.server_id)
    → (row.server_id ≢ id → Accurate id s)
    → Accurate id (enter_online_session row now s).1
enter-Accurate id row now s server e alone a =
    subst (λ (r : Result OnlineSession × Store). Accurate id r.1)
      (sym (enter-registered row now s server e))
      (elim (Bool-cases (row.server_id == id)) [
        | inl same ↦
            subst (λ x. Accurate id (recount_online x moved))
              (sym ((text_key.agrees row.server_id id).0 same)) (recount-Accurate_self id moved)
        | inr apart ↦
            recount-Accurate id row.server_id moved
              (λ found at_id. a (differ apart) found at_id ∙ ap pos (unchanged apart))
      ])
  where
    moved : Store
    moved = record s { online = insert row.account_id (entered now row) s.online }

    differ : (row.server_id == id) ≡ false → row.server_id ≢ id
    differ apart p = cc (sym apart ∙ (text_key.agrees row.server_id id).1 p)

    unchanged : (row.server_id == id) ≡ false → count_on id s.online ≡ count_on id moved.online
    unchanged apart = elim (Option-cases (lookup row.account_id s.online)) [
      | inl gone ↦ omega (
        arith,
        count_on-insert_new id row.account_id (entered now row) s.online gone,
        on-other id (entered now row) apart,
      )
      | inr (old, there) ↦ omega (
        arith,
        count_on-insert id row.account_id (entered now row) old s.online there,
        on-other id (entered now row) apart,
        on-other id old (ap (λ x. x == id) (alone old there) ∙ apart),
      )
    ]

-- A player who is online on one server and enters another leaves the first one's row as it was,
-- while one session fewer is on it: a row that was right is wrong by one afterwards.
pub enter-stale :
    (row old : OnlineSession) (now : ℕ) (s : Store) (server : GameServer)
    → lookup row.server_id s.servers ≡ some server
    → lookup row.account_id s.online ≡ some old
    → row.server_id ≢ old.server_id
    → let later = (enter_online_session row now s).1 in
      (lookup old.server_id later.servers ≡ lookup old.server_id s.servers)
      × (suc (count_on old.server_id later.online) ≡ count_on old.server_id s.online)
enter-stale row old now s server e there apart =
    subst
      (λ (r : Result OnlineSession × Store).
        (lookup old.server_id r.1.servers ≡ lookup old.server_id s.servers)
        × (suc (count_on old.server_id r.1.online) ≡ count_on old.server_id s.online))
      (sym (enter-registered row now s server e)) (same_row, fewer)
  where
    after : Store
    after =
        recount_online row.server_id
          (record s { online = insert row.account_id (entered now row) s.online })

    same_row : lookup old.server_id after.servers ≡ lookup old.server_id s.servers
    same_row =
        unfold recount_online in
        lookup-update_at_ne old.server_id row.server_id
          (with_count (count_on row.server_id (insert row.account_id (entered now row) s.online)))
          s.servers apart

    fewer : suc (count_on old.server_id after.online) ≡ count_on old.server_id s.online
    fewer =
        unfold recount_online in
        omega (
          arith,
          count_on-insert old.server_id row.account_id (entered now row) old s.online there,
          on-other old.server_id (entered now row)
              (==-false_of_ne row.server_id old.server_id apart),
          on-same old.server_id old (==_refl old.server_id),
        )
