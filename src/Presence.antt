-- ===== src/Presence.antt =====
-- Game servers and the players online on them (internal/platform/store/store.go).
pub mod Counting
pub mod Accuracy
pub mod Moves
mod Tests
use aeon_backend.Base.{
  Bool, Error, List, Result, String, [], err, if◌then◌else◌, length, ltb, message, none, not,
  not_found, ok, or_fail, some, suc, ℕ, ◌&&◌, ◌==◌, ◌∷◌, nat_key, text_key,
}
use aeon_backend.Store.{GameServer, OnlineSession, Store}
use aeon_backend.Base.Int.{leb_ℤ, pos, ℤ}
use aeon_backend.Base.Dict.{Dict, erase, insert, lookup, update_at}
use aeon_backend.Base.Text.{trim_space}
use aeon_backend.Base.Rows.{select}

-- `UpsertGameServer`: the defaults, and what an existing row keeps.
abbrev pub with_defaults : GameServer → GameServer
with_defaults server =
    let sized =
      if leb_ℤ server.max_players (pos 0) then record server { max_players = pos 50 } else server in
    let stated : GameServer =
      if trim_space sized.status == "" then record sized { status = "ONLINE" } else sized in
    if trim_space stated.display_name == ""
    then record stated { display_name = stated.server_id }
    else stated

abbrev pub refreshed : ℕ → GameServer → GameServer → GameServer
refreshed now server existing = record existing {
  display_name = server.display_name;
  region = server.region;
  host = server.host;
  port = server.port;
  public_endpoint = server.public_endpoint;
  max_players = server.max_players;
  status = server.status;
  last_heartbeat_at = some now;
}

abbrev pub registered : ℕ → GameServer → GameServer
registered now server = record server { registered_at = now; last_heartbeat_at = some now }

unfoldable pub put_server : String → GameServer → Store → Store
put_server id row s = record s { servers = insert id row s.servers }

unfoldable pub upsert_game_server : GameServer → ℕ → Store → GameServer × Store
unfolding put_server trim_space
upsert_game_server given now s =
    let server = with_defaults given in
    elim (lookup server.server_id s.servers) [
      | some existing ↦ (
        refreshed now server existing,
        put_server server.server_id (refreshed now server existing) s,
      )
      | none ↦ (registered now server, put_server server.server_id (registered now server) s)
    ]

abbrev pub beaten : ℤ → ℕ → GameServer → GameServer
beaten players now row = record row {
  online_players = players;
  last_heartbeat_at = some now;
  status = if row.status == "OFFLINE" then "ONLINE" else row.status;
}

-- `HeartbeatGameServer`
unfoldable pub heartbeat_game_server : String → ℤ → ℕ → Store → Result GameServer × Store
unfolding put_server
heartbeat_game_server id players now s = elim (lookup id s.servers) [
  | none ↦ (err Error.not_found, s)
  | some row ↦ (ok (beaten players now row), put_server id (beaten players now row) s)
]

-- The sessions on a server, as the loop of `recountOnlineLocked` counts them.
unfoldable pub count_on : String → Dict ℕ OnlineSession → ℕ
count_on id [] = 0
count_on id ((account, row) ∷ m) =
    let rest = count_on id m in if row.server_id == id then suc rest else rest

abbrev pub with_count : ℕ → GameServer → GameServer
with_count n row = record row { online_players = pos n }

-- `recountOnlineLocked`
unfoldable pub recount_online : String → Store → Store
unfolding count_on
recount_online id s = record s {
  servers = update_at id (with_count (count_on id s.online)) s.servers;
}

abbrev pub entered : ℕ → OnlineSession → OnlineSession
entered now row = record row { entered_at = now; last_seen_at = now }

-- `EnterOnlineSession`
unfoldable pub enter_online_session : OnlineSession → ℕ → Store → Result OnlineSession × Store
unfolding recount_online
enter_online_session row now s = elim (lookup row.server_id s.servers) [
  | none ↦ (err (Error.message "game server is not registered"), s)
  | some server ↦ (
    ok (entered now row),
    recount_online row.server_id
        (record s { online = insert row.account_id (entered now row) s.online }),
  )
]

-- The test that a connection, where one is named, is the session's.
abbrev pub other_connection : String → OnlineSession → Bool
other_connection connection row = not (connection == "") && not (row.connection_id == connection)

abbrev pub seen_online : ℕ → OnlineSession → OnlineSession
seen_online now row = record row { last_seen_at = now }

-- `TouchOnlineSession`
unfoldable pub touch_online_session : ℕ → String → ℕ → Store → Result OnlineSession × Store
touch_online_session account connection now s = elim (lookup account s.online) [
  | none ↦ (err Error.not_found, s)
  | some row ↦ if other_connection connection row then (err Error.not_found, s) else (
    ok (seen_online now row),
    record s { online = insert account (seen_online now row) s.online },
  )
]

-- `LeaveOnlineSession`
unfoldable pub leave_online_session : ℕ → String → Store → Result OnlineSession × Store
unfolding recount_online
leave_online_session account connection s = elim (lookup account s.online) [
  | none ↦ (err Error.not_found, s)
  | some row ↦
      if other_connection connection row
      then (err Error.not_found, s)
      else (ok row, recount_online row.server_id (record s { online = erase account s.online }))
]

-- `GetOnlineSession`
unfoldable pub get_online_session : ℕ → Store → Result OnlineSession
get_online_session account s = or_fail (lookup account s.online) Error.not_found

-- `ListOnlineByServer`, in the order `visit` in which the map is ranged over.
unfoldable pub list_online_by_server :
    (Dict ℕ OnlineSession → Dict ℕ OnlineSession) → String → Store → Dict ℕ OnlineSession
unfolding select
list_online_by_server visit id s = select (λ e. e.1.server_id == id) (visit s.online)

-- `SweepStaleOnlineSessions`: the servers touched, and the rows that stay. A server that is touched
-- twice is listed and recounted twice, to the same number.
unfoldable pub stale_servers : ℕ → Dict ℕ OnlineSession → List String
stale_servers older [] = []
stale_servers older ((account, row) ∷ m) =
    let rest = stale_servers older m in
    if ltb row.last_seen_at older then row.server_id ∷ rest else rest

unfoldable pub fresh_sessions : ℕ → Dict ℕ OnlineSession → Dict ℕ OnlineSession
fresh_sessions older [] = []
fresh_sessions older ((account, row) ∷ m) =
    let rest = fresh_sessions older m in
    if ltb row.last_seen_at older then rest else (account, row) ∷ rest

unfoldable pub recount_all : List String → Store → Store
unfolding recount_online
recount_all [] s = s
recount_all (id ∷ ids) s = recount_all ids (recount_online id s)

unfoldable pub sweep_stale_online_sessions : ℕ → Store → ℕ × Store
unfolding stale_servers fresh_sessions recount_all
sweep_stale_online_sessions older s = (
  length (stale_servers older s.online),
  recount_all (stale_servers older s.online) (record s { online = fresh_sessions older s.online }),
)
