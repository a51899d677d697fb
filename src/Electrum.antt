-- ===== src/Electrum.antt =====
-- src/electrum_server/mod.rs and src/pool/virtual_mempool.rs: the Electrum server, which stands between
-- the wallets and the indexer. Here: the requests and the session of a wallet.
pub mod Inject
pub mod Status
pub mod Request
pub mod Source
pub mod Lines
pub mod Plan
pub mod Ingest
pub mod Intercept
pub mod Headers
pub mod Serve
pub mod Upstream
use broadcast_pool.Prelude.{ℕ, String, Bool, false, Option, none, List, []}
use broadcast_pool.Json.{Value}

pub record JsonRpcRequest : Type 0 where
  pub jsonrpc : Option String
  pub method : String
  pub params : Option Value
  pub id : Value

-- Sets have no order; `pending_methods` has one entry for an id. The buffer for deferred notifications
-- is not modelled.
pub record SessionState : Type 0 where
  pub subscribed_scripthashes : List String
  pub pending_methods : List (Value × String × String)
  pub broadcast_intercepted : Bool
  pub recent_broadcast_txid : Option String
  pub rpc_lines_handled : ℕ
  pub saw_server_version : Bool
  pub wallet_label : Option String
  pub subscribed_headers : Bool

abbrev pub new : SessionState
new = record {
  subscribed_scripthashes = [];
  pending_methods = [];
  broadcast_intercepted = false;
  recent_broadcast_txid = none;
  rpc_lines_handled = 0;
  saw_server_version = false;
  wallet_label = none;
  subscribed_headers = false;
}
