-- ===== src/Store.antt =====
-- The in-memory store, internal/platform/store/store.go: its rows, its state, and its counters.
mod Records
mod Identities
mod State
pub use Records.*
pub use Identities.*
unfoldable pub use State.*
