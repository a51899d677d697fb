-- ===== src/Examples/World.antt =====
-- A database of three rows, backends that answer, and a manager over both.
use broadcast_pool.Prelude.{ℕ, String, Bool, true, false, none, some, List, [], ◌∷◌, ok, err}
use broadcast_pool.Models.{BroadcastTx, NewBroadcastTx}
use broadcast_pool.Db.{Row, Database, expected_mac, map_broadcast_row}
use broadcast_pool.Pool.{Backends, PoolManager, indexer, manual}
use broadcast_pool.Examples.Toy.{toy}

abbrev pub key : List ℕ
key = 7 ∷ 8 ∷ []

-- A scheduled row that is due at once, without a seal.
abbrev pub bare : String → String → ℕ → Row
bare id tx_hex nlocktime = record {
  id = id;
  tx_hex = tx_hex;
  txid = none;
  status = "scheduled";
  network = "main";
  nlocktime = nlocktime;
  broadcast_mode = some "manual";
  scheduled_time = some "1";
  broadcast_at = none;
  confirmed_at = none;
  block_height = none;
  target_fee_rate = none;
  actual_fee_rate = none;
  source_label = none;
  destination_address = none;
  utxo_count = 1;
  total_value_btc = 0;
  replacement_of = none;
  error_message = none;
  retry_count = 0;
  broadcast_missed_at = none;
  original_scheduled_time = none;
  defer_until = none;
  schedule_trigger = some "datetime";
  target_price = none;
  price_currency = none;
  price_condition = none;
  created_at = "1";
  updated_at = "1";
  row_mac = none;
}

abbrev pub sealed : String → String → ℕ → Row
sealed id tx_hex nlocktime =
    let r = bare id tx_hex nlocktime in record r { row_mac = some (expected_mac key r) }

-- Two sealed rows, one of them locked to block 900, and one that was changed behind the program's back.
abbrev pub rows : List Row
rows = sealed "a" "aa" 0 ∷ sealed "b" "bb" 900 ∷ bare "c" "cc" 0 ∷ []

abbrev pub db : Database
db = record { key = key; pool = rows; archive = []; config_store = [] }

-- An indexer at block 800 that accepts every transaction, and no Bitcoin Core.
instance abbrev pub steady : Backends
steady = record {
  now = λ n. 5;
  has_indexer = λ n. true;
  has_rpc = false;
  indexer_broadcast = λ n hex. ok hex;
  indexer_height = λ n. ok 800;
  indexer_mtp = λ n. ok 1_700_000_000;
  indexer_software = λ n. none;
  indexer_alive = λ n. true;
  rpc_broadcast = λ n hex. err "no core";
  rpc_height = λ n. err "no core";
  rpc_mtp = λ n. err "no core";
  rpc_status = λ n. err "no core";
  rpc_alive = λ n. false;
  rpc_transaction = λ n txid. none;
}

abbrev pub manager : PoolManager
manager = record {
  db = db;
  config = record {
    network = "main";
    indexer_url = some "tcp://localhost:50001";
    rebroadcast_interval_minutes = 60;
    expiry_days = 30;
    broadcast_mode = manual;
    scheduled_datetime = none;
    min_delay_hours = 1;
    max_delay_hours = 24;
    min_fee_rate = 1;
    max_fee_rate = 10;
    liana_virtual_block = record { enabled = false; target_height = 0; armed_at_height = 0 };
  };
  pending_txs = [];
  cached_prices = none;
  mtp_cache = none;
  cached_chain_tip = none;
  chain_health = record {
    indexer_up = true;
    core_up = false;
    core_ibd = false;
    core_sync_pct = none;
    height = some 800;
    mtp = none;
    indexer_software = none;
    source = indexer;
    polled = true;
  };
  safe_mode = false;
  tampered_ids = [];
  watched_scripthashes = [];
  scripthash_notifications = [];
  chain_tip_notifications = [];
  broadcast_notifications = [];
  calls = 0;
  sent = [];
}

abbrev pub nonce : List ℕ
nonce = 0 ∷ 1 ∷ 2 ∷ 3 ∷ 4 ∷ 5 ∷ 6 ∷ 7 ∷ 8 ∷ 9 ∷ 10 ∷ 11 ∷ []

abbrev pub seen : String → Bool → BroadcastTx
seen tx_hex tampered = record (map_broadcast_row 5 key (bare "a" tx_hex 0)) {
  tx_hex = tx_hex;
  tampered = some tampered;
}

abbrev pub new_tx : NewBroadcastTx
new_tx = record {
  tx_hex = "dd";
  network = "main";
  nlocktime = none;
  broadcast_mode = some "manual";
  scheduled_time = some 9;
  target_fee_rate = none;
  source_label = none;
  destination_address = none;
  utxo_count = none;
  total_value_btc = none;
  replacement_of = none;
}
