-- ===== src/Examples/Wallets.antt =====
-- Codecs of the Electrum server on a small scale, and a wallet's broadcast under them.
use broadcast_pool.Prelude.{
  String, true, none, some, List, [], ◌∷◌, ok, err, str_eq, if◌then◌else◌, from_codes, unwrap_or,
}
use broadcast_pool.Json.{
  Serde, Value, null, string, array, object, end, field, cons, nil, from_u64, number, neg_int,
}
use broadcast_pool.Transactions.{Transaction, Codec}
use broadcast_pool.Pool.{PoolManager}
use broadcast_pool.Electrum.{JsonRpcRequest, new}
use broadcast_pool.Electrum.Lines.{Wire}
use broadcast_pool.Electrum.Plan.{Draw}
use broadcast_pool.Electrum.Ingest.{Fresh}
use broadcast_pool.Electrum.Intercept.{Course, finished}
use broadcast_pool.Electrum.Serve.{Identity, Indexer, Connection}
use broadcast_pool.Examples.World.{manager, nonce}

-- Every text but the empty one is a transaction with one output and the given lock.
abbrev pub one_output : Transaction
one_output = record {
  inputs = [];
  outputs = record { value = 7; script_pubkey = 1 ∷ [] } ∷ [];
  lock_time = 0;
}

instance abbrev pub small : Codec
small = record {
  consensus_decode = λ s. if str_eq s "" then err "Failed to decode transaction" else ok one_output;
  txid = λ tx. "t";
  scripthash = λ script. "s";
  sha256 = λ bytes. bytes;
}

abbrev pub version_request : Value
version_request = object (
    field "method" (string "server.version")
      (field "params" (array (cons (string "Sparrow") nil)) end))

instance abbrev pub version_only : Serde
version_only = record {
  parse = λ s. if str_eq s "v" then some version_request else none;
  print = λ v. "";
}

instance abbrev pub text : Wire
text = record { from_utf8_lossy = λ bytes. unwrap_or (from_codes bytes) "" }

abbrev pub fresh : String → Fresh
fresh id = record {
  id = id;
  nonce = λ n. nonce;
  derived = none;
  parse_naive = λ s. none;
  gen_range = λ lo hi. lo;
}

abbrev pub draw_at : Draw
draw_at = record { now = 5; parse_naive = λ s. none; gen_range = λ lo hi. lo }

abbrev pub course : Course
course = record { preview = finished tt; ingest = finished tt; handled = 1; fetch = λ txid. none }

abbrev pub armed : PoolManager
armed = record manager {
  config = record manager.config {
    liana_virtual_block = record { enabled = true; target_height = 900; armed_at_height = 800 };
  };
}

abbrev pub told : PoolManager
told = record manager { cached_chain_tip = some (800, "00") }

abbrev pub identity : Identity
identity = record { version = "1"; genesis = "00"; small_fee = from_u64 0 }

abbrev pub silent : Indexer
silent = record { url = "tcp://x"; answer = λ r. finished none; refreshed = none }

abbrev pub broadcast_request : JsonRpcRequest
broadcast_request = record {
  jsonrpc = none;
  method = "blockchain.transaction.broadcast";
  params = none;
  id = null;
}

abbrev pub connected : Connection
connected = record { session = new; pool = told; forwarded = [] }

-- Balances and lists of an indexer.
abbrev pub balance : Value
balance = object (field "confirmed" (from_u64 10) (field "unconfirmed" (number (neg_int 2)) end))

abbrev pub listed : List Value
listed = object (field "height" (from_u64 5) (field "tx_hash" (string "a") end)) ∷ []
