-- ===== src/Store/Records.antt =====
-- The rows of the in-memory store (internal/platform/store/store.go and sessions.go). Identifiers
-- are the bit patterns of int64, since they are only compared; amounts are int64, as integers; a
-- `time.Time` is the number of nanoseconds since Go's zero time, in UTC; a `*time.Time` that may
-- be nil is an option; a status that only the store writes is a data type.
use Prim.Native.Nat.{ℕ}
use Prim.Native.String.{String}
use mathlib.Core.Bool.{Bool}
use mathlib.Core.Option.{Option}
use aeon_backend.Base.Int.{ℤ}
use aeon_backend.Base.Dict.{Dict}

pub record Account : Type 0 where
  pub id : ℕ
  pub username : String
  pub wallet_address : String
  pub is_banned : Bool
  pub created_at : ℕ
  pub last_login_at : ℕ

-- The caller chooses the first status, so a status is a text.
pub record WalletLoginNonce : Type 0 where
  pub nonce : String
  pub wallet : String
  pub text : String
  pub status : String
  pub expires_at : ℕ
  pub created_at : ℕ

pub record GameTicket : Type 0 where
  pub ticket : String
  pub account_id : ℕ
  pub character_id : ℕ
  pub server_id : String
  pub session_id : String
  pub expires_at : ℕ
  pub consumed : Bool

pub record AccountToken : Type 0 where
  pub account_id : ℕ
  pub token_balance : ℤ
  pub withdrawable_balance : ℤ
  pub locked_balance : ℤ
  pub external_balance : ℤ
  pub unlock_credit : ℤ

pub data LockStatus : Type 0 where
  locked unlocked : LockStatus

pub record LockedGame : Type 0 where
  pub id : ℕ
  pub account_id : ℕ
  pub amount : ℤ
  pub source : String
  pub status : LockStatus
  pub ref : String
  pub created_at : ℕ
  pub unlock_at : ℕ

pub data WithdrawalStatus : Type 0 where
  queued manual_review submitted confirmed rejected : WithdrawalStatus

pub record Withdrawal : Type 0 where
  pub id : ℕ
  pub account_id : ℕ
  pub wallet : String
  pub amount : ℤ
  pub status : WithdrawalStatus
  pub reason : String
  pub tx_hash : String
  pub created_at : ℕ
  pub processed_at : ℕ

pub record LedgerEntry : Type 0 where
  pub id : ℕ
  pub account_id : ℕ
  pub kind : String
  pub amount : ℤ
  pub ref : String
  pub detail : String
  pub created_at : ℕ

pub record AuditEntry : Type 0 where
  pub id : ℕ
  pub admin_id : String
  pub action : String
  pub target : String
  pub reason : String
  pub created_at : ℕ

pub data SessionStatus : Type 0 where
  active revoked : SessionStatus

pub record AccountSession : Type 0 where
  pub session_id : String
  pub account_id : ℕ
  pub wallet_plugin : String
  pub device_id : String
  pub ip_address : String
  pub user_agent : String
  pub status : SessionStatus
  pub created_at : ℕ
  pub last_seen_at : Option ℕ
  pub revoked_at : Option ℕ

pub record RefreshTokenRecord : Type 0 where
  pub token_hash : String
  pub account_id : ℕ
  pub session_id : String
  pub expires_at : ℕ
  pub revoked_at : Option ℕ
  pub created_at : ℕ

pub record OnlineSession : Type 0 where
  pub account_id : ℕ
  pub character_id : ℕ
  pub session_id : String
  pub server_id : String
  pub connection_id : String
  pub entered_at : ℕ
  pub last_seen_at : ℕ

pub record GameServer : Type 0 where
  pub server_id : String
  pub display_name : String
  pub region : String
  pub host : String
  pub port : ℤ
  pub public_endpoint : String
  pub max_players : ℤ
  pub online_players : ℤ
  pub status : String
  pub registered_at : ℕ
  pub last_heartbeat_at : Option ℕ

-- `EquipmentItems` is left out: the store in memory keeps it empty.
pub record Character : Type 0 where
  pub id : ℕ
  pub account_id : ℕ
  pub name : String
  pub slot_index : ℕ
  pub level : ℤ
  pub exp : ℤ
  pub highest_cleared_chapter_id : ℤ
  pub highest_cleared_floor_id : ℤ
  pub appearance : Dict String String
  pub created_at : ℕ
  pub last_played : ℕ
  pub has_last_played : Bool
  pub deleted : Bool

pub record DungeonRunRecovery : Type 0 where
  pub required : Bool
  pub status : String
  pub dungeon_run_id : String
  pub account_id : ℕ
  pub character_id : ℕ
  pub server_id : String
  pub chapter_id : ℤ
  pub floor_id : ℤ
  pub started_at : ℕ

-- A float64 is kept as its bit pattern, since it is stored and compared with zero only.
pub record CharacterState : Type 0 where
  pub pos_x : ℕ
  pub pos_y : ℕ
  pub current_map : String
  pub play_time_sec : ℤ
  pub hunger : ℕ
  pub last_played : ℕ
  pub has_last_played : Bool
