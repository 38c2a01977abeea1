-- ===== src/Presence/Tests.antt =====
-- Two servers, and account 7 that moves from one to the other.
use aeon_backend.Base.Int.{pos}
use aeon_backend.Store.{GameServer, OnlineSession, Store, new}
use aeon_backend.Base.Dict.{lookup}
use aeon_backend.Presence.Accuracy.{Accurate, sweep-Accurate}
use aeon_backend.Base.{
  ◌↔◌, ◌≤◌, ℕ, String, none, refl, some, ◌≡◌, text_key, length, suc, ◌+◌, nat_key, ne_of_==-false,
}
use aeon_backend.Presence.Moves.{enter-Accurate, enter-stale, leave-Accurate}
use aeon_backend.Presence.{
  enter_online_session, registered, upsert_game_server, with_defaults, count_on, entered,
  leave_online_session, stale_servers, sweep_stale_online_sessions,
}

abbrev server_named : String → GameServer
server_named id = record {
  server_id = id;
  display_name = id;
  region = "eu";
  host = "h";
  port = pos 1;
  public_endpoint = "";
  max_players = pos 0;
  online_players = pos 0;
  status = "";
  registered_at = 0;
  last_heartbeat_at = none;
}

abbrev session_on : String → OnlineSession
session_on server = record {
  account_id = 7;
  character_id = 1;
  session_id = "s1";
  server_id = server;
  connection_id = "c";
  entered_at = 0;
  last_seen_at = 0;
}

abbrev two_servers : Store
two_servers =
    (upsert_game_server (server_named "b") 5 (upsert_game_server (server_named "a") 5 new).1).1

abbrev on_a : Store
on_a = (enter_online_session (session_on "a") 10 two_servers).1

registered_a :
    lookup "a" two_servers.servers ≡ some (registered 5 (with_defaults (server_named "a")))
unfolding upsert_game_server new
registered_a = refl

enter-Accurate_example : Accurate "a" on_a
unfolding upsert_game_server new
enter-Accurate_example =
    enter-Accurate "a" (session_on "a") 10 two_servers
      (registered 5 (with_defaults (server_named "a"))) registered_a (λ old h. cc)
      (λ n. absurd (n refl))

online_a : lookup 7 on_a.online ≡ some (entered 10 (session_on "a"))
unfolding enter_online_session upsert_game_server new
online_a = refl

registered_b : lookup "b" on_a.servers ≡ some (registered 5 (with_defaults (server_named "b")))
unfolding enter_online_session upsert_game_server new
registered_b = refl

enter-stale_example :
    let later = (enter_online_session (session_on "b") 20 on_a).1 in
    (lookup "a" later.servers ≡ lookup "a" on_a.servers)
    × (suc (count_on "a" later.online) ≡ count_on "a" on_a.online)
enter-stale_example =
    enter-stale (session_on "b") (entered 10 (session_on "a")) 20 on_a
      (registered 5 (with_defaults (server_named "b"))) registered_b online_a
      (ne_of_==-false "b" "a" refl)

leave-Accurate_example : Accurate "a" (leave_online_session 7 "c" on_a).1
unfolding enter_online_session upsert_game_server new
leave-Accurate_example = leave-Accurate "a" "c" 7 on_a (tt, tt) enter-Accurate_again
  where
    enter-Accurate_again : Accurate "a" on_a
    enter-Accurate_again =
        enter-Accurate "a" (session_on "a") 10 two_servers
          (registered 5 (with_defaults (server_named "a"))) registered_a (λ old h. cc)
          (λ n. absurd (n refl))

sweep-Accurate_example :
    let later = (sweep_stale_online_sessions 50 on_a).1 in
    ((account : ℕ) (row : OnlineSession)
      → (lookup account later.online ≡ some row)
        ↔ ((lookup account on_a.online ≡ some row) × (50 ≤ row.last_seen_at)))
    × ((sweep_stale_online_sessions 50 on_a).0 + length later.online ≡ length on_a.online)
    × Accurate "a" later
unfolding enter_online_session upsert_game_server new stale_servers
sweep-Accurate_example = sweep-Accurate "a" 50 on_a (tt, tt) (λ h. absurd (h.0 refl))
