-- ===== src/Access.antt =====
-- Who may come in: login nonces, accounts, sessions with their refresh tokens, and the tickets that
-- admit a player to a game server (internal/platform/store/store.go).
pub mod Nonces
pub mod Sessions
pub mod Tickets
mod Tests
