-- ===== src/Chain.antt =====
-- The code of internal/chain that computes: Base58 texts, token amounts and the payments that a
-- transaction shows.
pub mod Base58
pub mod Amounts
pub mod Credits
mod Tests
