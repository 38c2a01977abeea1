-- ===== src/Presence/Accuracy.antt =====
-- The number of players that a server's row states.
use aeon_backend.Base.{
  ◌≤◌, ◌↔◌, nat_key, Bool-cases, List, String, [], false, inl, inr, refl, some, subst, sym,
  text_key, ◌==◌, ◌∷◌, ◌≡◌, All, ap, length, ℕ, ◌+◌, ◌∙◌, ◌≢◌,
}
use aeon_backend.Base.Int.{pos}
use aeon_backend.Presence.{
  count_on, recount_all, recount_online, with_count, fresh_sessions, stale_servers,
  sweep_stale_online_sessions,
}
use aeon_backend.Store.{GameServer, OnlineSession, Store}
use aeon_backend.Base.Dict.{lookup, update_at-self, lookup-update_at_ne}
use aeon_backend.Base.Rows.{Distinct}
use aeon_backend.Presence.Counting.{lookup-fresh_iff, count_on-fresh, length-fresh}

-- The row of the server, if there is one, states the number of sessions on it.
abbrev pub Accurate : String → Store → Type 0
Accurate id s =
    (row : GameServer)
    → lookup id s.servers ≡ some row
    → row.online_players ≡ pos (count_on id s.online)

pub recount-Accurate_self : (id : String) (s : Store) → Accurate id (recount_online id s)
unfolding recount_online
recount-Accurate_self id s =
    update_at-self (λ r. r.online_players ≡ pos (count_on id s.online)) id
      (with_count (count_on id s.online)) s.servers (λ r. refl)

-- A recount of any server keeps every server that was accurate so.
pub recount-Accurate :
    (id other : String) (s : Store) → Accurate id s → Accurate id (recount_online other s)
unfolding recount_online
recount-Accurate id other s a = elim (Bool-cases (other == id)) [
  | inl same ↦
      subst (λ x. Accurate id (recount_online x s)) (sym ((text_key.agrees other id).0 same))
        (recount-Accurate_self id s)
  | inr apart ↦ untouched apart
]
  where
    differ : (other == id) ≡ false → other ≢ id
    differ apart p = cc ((text_key.agrees other id).1 p)

    untouched : (other == id) ≡ false → Accurate id (recount_online other s)
    untouched apart row there = a row (
        sym (
          lookup-update_at_ne id other (with_count (count_on other s.online)) s.servers
            (differ apart))
        ∙ there)

recount_all-Accurate :
    (id : String) (ids : List String) (s : Store) → Accurate id s → Accurate id (recount_all ids s)
unfolding recount_all
recount_all-Accurate id [] s a = a
recount_all-Accurate id (x ∷ ids) s a =
    recount_all-Accurate id ids (recount_online x s) (recount-Accurate id x s a)

-- A server in the list is accurate after the recounts, whatever it was before.
recount_all-covers :
    (id : String) (ids : List String) (s : Store)
    → (All (λ x. x ≢ id) ids → Accurate id s)
    → Accurate id (recount_all ids s)
unfolding recount_all
recount_all-covers id [] s a = a tt
recount_all-covers id (x ∷ ids) s a = elim (Bool-cases (x == id)) [
  | inl same ↦ recount_all-Accurate id ids (recount_online x s) (
      subst (λ y. Accurate id (recount_online y s)) (sym ((text_key.agrees x id).0 same))
        (recount-Accurate_self id s))
  | inr apart ↦
      recount_all-covers id ids (recount_online x s)
        (λ h. recount-Accurate id x s (a (differ apart, h)))
]
  where
    differ : (x == id) ≡ false → x ≢ id
    differ apart p = cc ((text_key.agrees x id).1 p)

recount_all-online : (ids : List String) (s : Store) → (recount_all ids s).online ≡ s.online
unfolding recount_all recount_online
recount_all-online [] s = refl
recount_all-online (x ∷ ids) s = recount_all-online ids (recount_online x s)

sweep-online :
    (older : ℕ) (s : Store)
    → (sweep_stale_online_sessions older s).1.online ≡ fresh_sessions older s.online
unfolding sweep_stale_online_sessions
sweep-online older s =
    recount_all-online (stale_servers older s.online)
      (record s { online = fresh_sessions older s.online })

-- After the stale sessions are swept, from a map of the sessions online that lists no account twice,
-- the sessions online are those of before that were last seen at the limit or later; with the number
-- returned they are as many as before; and a server's row states the number of sessions on it if the
-- server had a stale session, or if the row stated the number before.
pub sweep-Accurate :
    (id : String) (older : ℕ) (s : Store)
    → Distinct s.online
    → (All (λ x. x ≢ id) (stale_servers older s.online) → Accurate id s)
    → let later = (sweep_stale_online_sessions older s).1 in
      ((account : ℕ) (row : OnlineSession)
        → (lookup account later.online ≡ some row)
          ↔ ((lookup account s.online ≡ some row) × (older ≤ row.last_seen_at)))
      × ((sweep_stale_online_sessions older s).0 + length later.online ≡ length s.online)
      × Accurate id later
sweep-Accurate id older s d a = (
  λ account row.
      subst
        (λ m.
          (lookup account m ≡ some row)
          ↔ ((lookup account s.online ≡ some row) × (older ≤ row.last_seen_at)))
        (sym (sweep-online older s)) (lookup-fresh_iff older account row s.online d),
  ap (λ m. (sweep_stale_online_sessions older s).0 + length m) (sweep-online older s)
      ∙ (unfold sweep_stale_online_sessions in length-fresh older s.online),
  unfold sweep_stale_online_sessions in
      recount_all-covers id (stale_servers older s.online)
        (record s { online = fresh_sessions older s.online })
        (λ h row there. a h row there ∙ ap pos (sym (count_on-fresh id older s.online h))),
)
