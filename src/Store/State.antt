-- ===== src/Store/State.antt =====
-- `Store` of internal/platform/store/store.go, and the helpers that every operation uses. Each
-- operation holds the mutex from its first read to its last write, so it is one step.
use aeon_backend.Base.{
  ℕ, ◌+◌, ◌%◌, ◌^◌, String, List, [], ◌∷◌, ◌++◌, none, some, if◌then◌else◌, Bool-cases, ap, inl,
  inr, refl, true,
}
use aeon_backend.Base.Int.{ℤ, pos}
use aeon_backend.Base.Dict.{Dict, lookup, insert, lookup-insert}
use aeon_backend.Base.{nat_key, ◌≡◌, ◌==◌, arith}
use aeon_backend.Store.Identities.{ServiceIdentity}
use aeon_backend.Store.Records.{
  Account, WalletLoginNonce, GameTicket, AccountToken, LockedGame, Withdrawal, LedgerEntry,
  AuditEntry, AccountSession, RefreshTokenRecord, OnlineSession, GameServer, Character,
  DungeonRunRecovery, CharacterState,
}

pub record Store : Type 0 where
  pub next_id : ℕ
  pub nonces : Dict String WalletLoginNonce
  pub accounts : Dict ℕ Account
  pub by_wallet : Dict String ℕ
  pub characters : Dict ℕ Character
  pub tickets : Dict String GameTicket
  pub tokens : Dict ℕ AccountToken
  pub locked_games : Dict ℕ LockedGame
  pub withdrawals : Dict ℕ Withdrawal
  pub ledger : List LedgerEntry
  pub audits : List AuditEntry
  pub sessions : Dict String AccountSession
  pub refresh : Dict String RefreshTokenRecord
  pub servers : Dict String GameServer
  pub online : Dict ℕ OnlineSession
  pub dungeon_recoveries : Dict ℕ DungeonRunRecovery
  pub character_states : Dict ℕ CharacterState
  pub gathering_settlements : Dict String ℕ
  pub service_identities : Dict String ServiceIdentity
  pub service_nonces : Dict String ℕ

-- `New`
unfoldable pub new : Store
new = record {
  next_id = 1000;
  nonces = [];
  accounts = [];
  by_wallet = [];
  characters = [];
  tickets = [];
  tokens = [];
  locked_games = [];
  withdrawals = [];
  ledger = [];
  audits = [];
  sessions = [];
  refresh = [];
  servers = [];
  online = [];
  dungeon_recoveries = [];
  character_states = [];
  gathering_settlements = [];
  service_identities = [];
  service_nonces = [];
}

-- `next`: the identifier that it hands out, and the store behind it.
abbrev pub next_of : Store → ℕ
next_of s = (s.next_id + 1) % 2 ^ 64

abbrev pub next : Store → ℕ × Store
next s = (next_of s, record s { next_id = next_of s })

abbrev pub zero_token : ℕ → AccountToken
zero_token a = record {
  account_id = a;
  token_balance = pos 0;
  withdrawable_balance = pos 0;
  locked_balance = pos 0;
  external_balance = pos 0;
  unlock_credit = pos 0;
}

-- The row that `ensureTokenLocked` points at.
unfoldable pub row_of : ℕ → Dict ℕ AccountToken → AccountToken
row_of a m = elim (lookup a m) [ none ↦ zero_token a | some t ↦ t ]

abbrev pub token_of : Store → ℕ → AccountToken
token_of s a = row_of a s.tokens

pub row_of-insert :
    (a b : ℕ) (t : AccountToken) (m : Dict ℕ AccountToken)
    → row_of a (insert b t m) ≡ (if b == a then t else row_of a m)
unfolding row_of
row_of-insert a b t m = ground (arith, lookup-insert a b t m)

-- `ensureTokenLocked`: the row is there afterwards.
unfoldable pub ensure_token : ℕ → Store → AccountToken × Store
unfolding row_of
ensure_token a s = (token_of s a, record s { tokens = insert a (token_of s a) s.tokens })

-- A write through the pointer that `ensureTokenLocked` returned.
unfoldable pub put_token : ℕ → AccountToken → Store → Store
put_token a t s = record s { tokens = insert a t s.tokens }

-- `addLedgerLocked`
unfoldable pub add_ledger : ℕ → String → ℤ → String → String → ℕ → Store → Store
add_ledger a kind amount ref detail clock s = record s {
  next_id = next_of s;
  ledger =
      s.ledger
      ++ record {
        id = next_of s;
        account_id = a;
        kind = kind;
        amount = amount;
        ref = ref;
        detail = detail;
        created_at = clock;
      }
        ∷ [];
}

-- No account's row reads differently afterwards.
pub row_of-ensure :
    (a b : ℕ) (m : Dict ℕ AccountToken) → row_of a (insert b (row_of b m) m) ≡ row_of a m
row_of-ensure a b m = elim (Bool-cases (b == a)) [
  | inl same ↦ rw row_of-insert (rw same (ap (λ c. row_of c m) (key_eq b a same)))
  | inr other ↦ rw row_of-insert (rw other refl)
]
  where
    key_eq : (b a : ℕ) → (b == a) ≡ true → b ≡ a
    key_eq b a e = ground arith
