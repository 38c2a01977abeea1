-- ===== src/Dungeon.antt =====
-- Dungeon runs of the in-memory store (internal/platform/store/store.go): `EconomySnapshot`,
-- `DungeonEnter`, `ActiveDungeonRun`, `CancelDungeonRun` and `DungeonFinish`. `strings.ToLower` is a
-- parameter. `DungeonEnter` and `DungeonFinish` release the mutex around the snapshot that they
-- take; here the parts run one after the other.
pub mod Items
pub mod Runs
pub mod Finish
pub mod Active
pub mod Ended
pub mod Others
pub mod Later
pub mod Once
pub mod Rewards
mod Tests
