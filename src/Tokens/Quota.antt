-- ===== src/Tokens/Quota.antt =====
-- The limits of `ProcessAutoWithdrawals`: what is paid out in a day and in an hour, summed over
-- the map, against the worker's running totals.
pub mod Measure
pub mod Paying
pub mod Bounds
