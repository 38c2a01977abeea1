-- ===== src/Rules/Loot.antt =====
-- What a loot pool gives: lootPoolRewards and its helpers, of internal/economy/rules/config.go.
pub mod Stages
pub mod Templates
pub mod Pools
pub mod Total
