-- ===== src/Rules.antt =====
-- The economy rules, internal/economy/rules/config.go: what the configuration says (Rules.Types),
-- what is drawn from it, and what `validate` checks.
pub mod Types
pub mod Outcome
pub mod Runtime
pub mod Draw
pub mod Affixes
pub mod Names
pub mod Loot
pub mod Settlements
pub mod Shops
pub mod Enhancement
pub mod Prizes
pub mod Validation
pub mod Samples
mod Tests
