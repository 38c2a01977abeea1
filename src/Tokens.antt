-- ===== src/Tokens.antt =====
-- The account tokens of the in-memory store, internal/platform/store/store.go: AEB that is granted
-- locked, unlocks with time, and leaves by withdrawals that the worker pays out under limits.
mod Locks
mod Payouts
mod Worker
mod Review
pub mod Books
pub mod Quota
pub mod History
pub mod Reads
mod Tests
unfoldable pub use Locks.*
unfoldable pub use Payouts.*
unfoldable pub use Worker.*
unfoldable pub use Review.*
