-- ===== src/Players.antt =====
-- Accounts, their characters, and the levels of a character (internal/platform/store/store.go).
pub mod Accounts
pub mod Characters
pub mod Levels
mod Tests
