-- ===== src/Lib.antt =====
-- A verification library beside the Go code of this game backend: its in-memory store, the rules of its
-- economy, and the pure part of its chain package.
--
-- The program. The backend of a game whose currency is a token on Solana. The account service logs
-- wallets in with a signed nonce, opens sessions with rotating refresh tokens, and hands out tickets
-- that admit a player to a game server. The economy service grants locked tokens, unlocks them when
-- they are due, takes withdrawal requests, and has a worker that pays them within limits; what
-- exceeds a limit goes to a manual review. The chain package converts amounts and verifies payments.
-- All of them keep their state in a store: one over PostgreSQL, and one in memory that defines the
-- same behaviour in Go. The second is what is modelled here, together with the chain package. What a
-- dungeon, a boss, a recipe, a purchase or a lottery gives is computed by the rules, from a
-- configuration that is validated when it is loaded, and handed to the store as a reward plan.
--
-- The files and the code.
--   Base: names of the library, Boolean tests, lists, results, int64 (Base.Int), maps as association
--     lists (Base.Dict, Base.Rows), texts (Base.Text), numbers in a base (Base.Digits).
--   Store: the rows (Store.Records) and the state with its common helpers (Store.State), of
--     internal/platform/store/store.go and sessions.go: next, ensureTokenLocked, addLedgerLocked.
--   Tokens: GrantLocked and SettleUnlocks (Tokens.Locks), CreateWithdrawal (Tokens.Payouts),
--     ProcessAutoWithdrawals (Tokens.Worker), ReviewWithdrawal (Tokens.Review), and Token,
--     ListWithdrawals, Ledger and Audit (Tokens.Reads), of store.go. Tokens.Books is the invariant of
--     balances, with a child for each operation; Tokens.Quota is about the worker's limits;
--     Tokens.History is the step relation of the operations that move tokens.
--   Access: SaveWalletNonce, WalletNonce and ConsumeWalletNonce (Access.Nonces); the sessions and
--     refresh tokens, AdminRevokeAccountSessions included (Access.Sessions, with the step relation in
--     Access.Sessions.Steps); SaveTicket and ConsumeTicket (Access.Tickets), of store.go.
--   Players: UpsertAccountByWallet, Account and SetAccountBan (Players.Accounts); the characters of an
--     account and their saved state (Players.Characters); LevelProgressionRules (Players.Levels), of
--     store.go.
--   Dungeon: EconomySnapshot (Dungeon.Items), DungeonEnter, ActiveDungeonRun and CancelDungeonRun
--     (Dungeon.Runs), and DungeonFinish (Dungeon.Finish), of store.go; Dungeon.Later is the step
--     relation of what may happen to runs.
--   Presence: game servers and online sessions, of store.go.
--   Services: service identities and their nonces, of internal/platform/store/service_identities.go,
--     with the checks of what is asked for (Services.Inputs).
--   Rules: the economy rules, internal/economy/rules/config.go. Rules.Types has the configuration;
--     Rules.Outcome what a call does; Rules.Runtime what is taken from Go's libraries; Rules.Draw the
--     weighted draws and rollQuantity; Rules.Affixes the affixes of equipment; Rules.Names the seeds
--     and identifiers; Rules.Loot equipment stages, templates and lootPoolRewards; Rules.Settlements
--     the rewards of dungeons, activities, bosses and recipes; Rules.Shops, Rules.Enhancement and
--     Rules.Prizes the purchases, enhancement costs, lotteries and bounties; Rules.Validation the
--     checks of validate, a module for each group of them, with what they establish in
--     Rules.Validation.Parts. Rules.Samples is a configuration that is valid.
--   Chain: DecodeBase58 and EncodeBase58 of internal/chain/solana.go (Chain.Base58); GameToRawAmount
--     of payout.go and RawToGameAmount of rpc.go (Chain.Amounts); InboundTokenCredits and
--     findDecreasedOwner of rpc.go, and VerifyInboundPayment of payout.go (Chain.Credits).
--     Chain.Credits.Fell says, on the rows of a transaction alone, whose balance it lowered.
--   The modules named Tests hold concrete runs.
--
-- How state and operations correspond. `Store` has a field for each map or slice of the Go struct
-- that the modelled operations use. An operation is a function of its arguments and the store,
-- which returns its result and the store behind it. Each Go operation holds the store's mutex from
-- its first read to its last write (DungeonEnter and DungeonFinish in two parts), so one call is one
-- step, and an interleaving of goroutines is a sequence of steps. A write through a pointer that a map
-- holds is an insertion under its key.
-- `time.Now()` is the argument `clock`, or `now` where the caller passes the time; a time is the
-- number of nanoseconds since Go's zero time, in UTC. The order in which `range` visits a map is an
-- argument `visit`, any function that permutes the rows; an unstable sort of those rows is a stable
-- sort behind such an order. Identifiers are the bit patterns of an int64. Amounts are int64, as
-- integers whose sums wrap. SHA-256 and `strings.ToLower` are parameters.
--
-- The rules take a `Runtime`: math/rand/v2, whose generator is passed along as its state and whose IntN
-- is only known to return a number below a positive bound; the arithmetic of float64, as operations on
-- bit patterns, with the comparisons defined; and the folding of case. A call of the rules returns,
-- fails with an error that is named by the fixed text of its message, or panics, as IntN does for a
-- bound that is not positive and an index out of range does. A map is an association list, and where
-- `range` visits a map and the order shows in the result, it is an argument (LotteryPlan), or it is
-- the order of the rows where it only decides which fault is reported first (validate).
--
-- Bounds and fuel. The digits of a number are computed on as much fuel as the number, which is
-- enough since each division makes it smaller. The loop over levels runs on the number of levels
-- below the maximum, and ends there. Everything else is structural recursion.
--
-- Not modelled: the PostgreSQL store (SQL), HTTP handlers, configuration, Redis, commands, and the
-- calls of crypto/ed25519 and of the Solana library. Of the store in memory: bosses, shops,
-- gathering, bounties, the inventory, the marketplace, payments and leaderboards; the operations for
-- administrators (SaveAdminOperation, AdminOperation, the listings and those that return an error),
-- but for AdminRevokeAccountSessions and SetAccountBan; and ListGameServers. Of the rules: reading
-- the files (LoadDir), ResolveEquipment, and the settings that are handed to other packages; and the
-- memory that a slice takes, so that a purchase of a quantity that cannot be allocated is computed.
pub mod Base
pub mod Store
pub mod Tokens
pub mod Chain
pub mod Access
pub mod Presence
pub mod Players
pub mod Dungeon
pub mod Rules
pub mod Services
