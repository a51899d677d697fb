-- ===== src/Pool.antt =====
-- src/pool/manager.rs: the state of `PoolManager` and the backends that it asks. A mutex is a field; a
-- poisoned mutex is not modelled. Every answer from outside (the clock, the indexer, Bitcoin Core)
-- is a function of `calls`, the number of answers read before, so that it may change at any time.
pub mod Safe
pub mod Health
pub mod Mempool
pub mod Lookup
pub mod Confirm
pub mod Due
pub mod Broadcast
pub mod Tick
pub mod Schedule
pub mod Quiet
pub mod Sends
use broadcast_pool.Prelude.{
  ℕ, ◌+◌, String, Bool, true, false, Option, none, some, List, [], ◌∷◌, ◌++◌, Result, ok, err, Exec,
}
use broadcast_pool.Db.{Database}

pub record PendingTxOutput : Type 0 where
  pub output_index : ℕ
  pub value : ℕ
  pub scripthash : String

pub record PendingTxInfo : Type 0 where
  pub tx_hex : String
  pub scripthashes : List String
  pub outputs : List PendingTxOutput

-- pool/chain_health.rs
pub data ChainSource : Type 0 where
  indexer bitcoin_core no_source : ChainSource

pub record ChainHealth : Type 0 where
  pub indexer_up : Bool
  pub core_up : Bool
  pub core_ibd : Bool
  pub core_sync_pct : Option ℕ
  pub height : Option ℕ
  pub mtp : Option ℕ
  pub indexer_software : Option String
  pub source : ChainSource
  pub polled : Bool

-- notify/mod.rs
pub record BroadcastNotification : Type 0 where
  pub txid : String
  pub amount_sats : ℕ
  pub source_label : Option String
  pub created_at : Option ℕ
  pub broadcast_at : ℕ
  pub network : String

-- config.rs: the settings that the pool reads. `network` is `data_dir_name()`.
pub data BroadcastMode : Type 0 where
  immediate scheduled by_block manual : BroadcastMode

pub record LianaVirtualBlockConfig : Type 0 where
  pub enabled : Bool
  pub target_height : ℕ
  pub armed_at_height : ℕ

pub record Config : Type 0 where
  pub network : String
  pub indexer_url : Option String
  pub rebroadcast_interval_minutes : ℕ
  pub expiry_days : ℕ
  pub broadcast_mode : BroadcastMode
  pub scheduled_datetime : Option String
  pub min_delay_hours : ℕ
  pub max_delay_hours : ℕ
  pub min_fee_rate : ℕ
  pub max_fee_rate : ℕ
  pub liana_virtual_block : LianaVirtualBlockConfig

-- The answers from outside. `now` counts nanoseconds since 1970 and serves `Instant` too. A probe of
-- `rpc_transaction` says whether Bitcoin Core knows the transaction, and if so, whether in a block.
pub record Backends : Type 0 where
  pub now : ℕ → ℕ
  pub has_indexer : ℕ → Bool
  pub has_rpc : Bool
  pub indexer_broadcast : ℕ → String → Result String
  pub indexer_height : ℕ → Result ℕ
  pub indexer_mtp : ℕ → Result ℕ
  pub indexer_software : ℕ → Option String
  pub indexer_alive : ℕ → Bool
  pub rpc_broadcast : ℕ → String → Result String
  pub rpc_height : ℕ → Result ℕ
  pub rpc_mtp : ℕ → Result ℕ
  pub rpc_status : ℕ → Result (ℕ × ℕ × Bool × ℕ)
  pub rpc_alive : ℕ → Bool
  pub rpc_transaction : ℕ → String → Option Bool

-- Channels keep what was sent, oldest first. `sent` is a ghost field: each transaction that was handed
-- to a backend for broadcasting, oldest first.
pub record PoolManager : Type 0 where
  pub db : Database
  pub config : Config
  pub pending_txs : List (String × PendingTxInfo)
  pub cached_prices : Option (List (String × ℕ))
  pub mtp_cache : Option (ℕ × ℕ)
  pub cached_chain_tip : Option (ℕ × String)
  pub chain_health : ChainHealth
  pub safe_mode : Bool
  pub tampered_ids : List String
  pub watched_scripthashes : List String
  pub scripthash_notifications : List String
  pub chain_tip_notifications : List (ℕ × String)
  pub broadcast_notifications : List BroadcastNotification
  pub calls : ℕ
  pub sent : List String

abbrev pub Manager : Type 0 → Type 0
Manager = Exec PoolManager

-- An operation of the database, as one of the manager.
abbrev pub on_db : {A : Type 0} → Exec Database A → Manager A
on_db m s = let (r, db') = m s.db in (r, record s { db = db' })

-- One answer from outside.
abbrev pub ask : {A : Type 0} → (ℕ → A) → Manager A
ask f s = (ok (f s.calls), record s { calls = s.calls + 1 })
