-- ===== src/Db.antt =====
-- src/db/mod.rs: the table `broadcast_pool` as a list of rows, with its primary key `id`, and how a
-- row is sealed by its `row_mac` and decoded. A SQL statement is the list operation that it denotes;
-- I/O failures of SQLite and a poisoned mutex are not modelled. `Utc::now()` is an argument `now`.
pub mod Find
pub mod Write
pub mod Read
pub mod Stats
pub mod Seal
pub mod Archive
pub mod Open
use broadcast_pool.Prelude.{
  ℕ, String, Bool, true, false, not, Option, none, some, List, [], ◌∷◌, ◌++◌, map, str_eq, show_nat,
  if◌then◌else◌, Result, ok, err, Exec, ◌>>=◌, ◌>>◌, context, unwrap_or, select,
}
use mathlib.Core.Option
use broadcast_pool.Platform.{Platform}
use broadcast_pool.Models.{BroadcastTx, from_str}
use broadcast_pool.Crypto.{mac, decode_field}

-- A row as stored (db/schema.rs): times are RFC 3339 text, sensitive fields are encoded text.
pub record Row : Type 0 where
  pub id : String
  pub tx_hex : String
  pub txid : Option String
  pub status : String
  pub network : String
  pub nlocktime : ℕ
  pub broadcast_mode : Option String
  pub scheduled_time : Option String
  pub broadcast_at : Option String
  pub confirmed_at : Option String
  pub block_height : Option ℕ
  pub target_fee_rate : Option ℕ
  pub actual_fee_rate : Option ℕ
  pub source_label : Option String
  pub destination_address : Option String
  pub utxo_count : ℕ
  pub total_value_btc : ℕ
  pub replacement_of : Option String
  pub error_message : Option String
  pub retry_count : ℕ
  pub broadcast_missed_at : Option String
  pub original_scheduled_time : Option String
  pub defer_until : Option String
  pub schedule_trigger : Option String
  pub target_price : Option ℕ
  pub price_currency : Option String
  pub price_condition : Option String
  pub created_at : String
  pub updated_at : String
  pub row_mac : Option String

pub record ArchiveRow : Type 0 where
  pub id : String
  pub network : String
  pub archived_at : String
  pub blob : List ℕ

pub record Database : Type 0 where
  pub key : List ℕ
  pub pool : List Row
  pub archive : List ArchiveRow
  pub config_store : List (String × String)

-- `WHERE id = ?1`
abbrev pub by_id : String → Row → Bool
by_id id r = str_eq r.id id

unfoldable pub find : String → List Row → Option Row
find id [] = none
find id (r ∷ rs) = if by_id id r then some r else find id rs

-- `UPDATE broadcast_pool SET … WHERE test`
unfoldable pub update_where : (Row → Bool) → (Row → Row) → List Row → List Row
update_where test f = map (λ r. if test r then f r else r)

unfoldable pub join : List ℕ → List (List ℕ) → List ℕ
join sep [] = []
join sep (x ∷ []) = x
join sep (x ∷ y ∷ xs) = x ++ sep ++ join sep (y ∷ xs)

module _ ⦃p : Platform⦄ where
  -- The fields as bytes, joined by the byte 0x1f.
  unfoldable pub row_mac_input :
      String → String → String → String → ℕ → String → String → String → String → String → List ℕ
  unfolding join
  row_mac_input id status mode scheduled nlocktime price trigger condition tx_hex dest =
      join (0x1f ∷ []) (
        map p.as_bytes (
          id
          ∷ status
          ∷ mode
          ∷ scheduled
          ∷ show_nat nlocktime
          ∷ price
          ∷ trigger
          ∷ condition
          ∷ tx_hex
          ∷ dest
          ∷ []))

  -- The MAC that the columns of a row call for.
  unfoldable pub expected_mac : List ℕ → Row → String
  expected_mac key r = p.hex_encode (
      mac key (
        row_mac_input r.id r.status (unwrap_or r.broadcast_mode "") (unwrap_or r.scheduled_time "")
          r.nlocktime (unwrap_or (Option.map p.show_f64 r.target_price) "")
          (unwrap_or r.schedule_trigger "") (unwrap_or r.price_condition "") r.tx_hex
          (unwrap_or r.destination_address "")))

  abbrev pub same_text : Option String → String → Bool
  same_text none s = false
  same_text (some t) s = str_eq t s

  -- Rewrites `row_mac` from the columns as they stand.
  unfoldable pub reseal_row_mac : String → Exec Database (Unit {0})
  unfolding update_where
  reseal_row_mac id db = elim (find id db.pool) [
    | none ↦ (err "Failed to load row for row_mac reseal", db)
    | some r ↦ (
      ok tt,
      record db {
        pool =
            update_where (by_id id) (λ x. record x { row_mac = some (expected_mac db.key r) })
              db.pool;
      },
    )
  ]

  abbrev pub parse_datetime : ℕ → String → ℕ
  parse_datetime now s = unwrap_or (p.parse_rfc3339 s) now

  abbrev pub parse_optional_datetime : ℕ → Option String → Option ℕ
  parse_optional_datetime now = Option.map (parse_datetime now)

  -- A field that does not decrypt is passed on as it is stored.
  unfoldable pub decode_or_keep : List ℕ → String → String → String
  decode_or_keep key id s = elim (decode_field key s (p.as_bytes id)) [ ok t ↦ t | err _ ↦ s ]

  unfoldable pub map_broadcast_row : ℕ → List ℕ → Row → BroadcastTx
  map_broadcast_row now key r = record {
    id = r.id;
    tx_hex = decode_or_keep key r.id r.tx_hex;
    txid = r.txid;
    status = from_str r.status;
    network = r.network;
    nlocktime = some r.nlocktime;
    broadcast_mode = r.broadcast_mode;
    scheduled_time = parse_optional_datetime now r.scheduled_time;
    broadcast_at = parse_optional_datetime now r.broadcast_at;
    confirmed_at = parse_optional_datetime now r.confirmed_at;
    block_height = r.block_height;
    target_fee_rate = r.target_fee_rate;
    actual_fee_rate = r.actual_fee_rate;
    source_label = Option.map (decode_or_keep key r.id) r.source_label;
    destination_address = Option.map (decode_or_keep key r.id) r.destination_address;
    utxo_count = r.utxo_count;
    total_value_btc = r.total_value_btc;
    replacement_of = r.replacement_of;
    error_message = r.error_message;
    retry_count = r.retry_count;
    broadcast_missed_at = parse_optional_datetime now r.broadcast_missed_at;
    original_scheduled_time = parse_optional_datetime now r.original_scheduled_time;
    defer_until = parse_optional_datetime now r.defer_until;
    schedule_trigger = r.schedule_trigger;
    target_price = r.target_price;
    price_currency = r.price_currency;
    price_condition = r.price_condition;
    created_at = parse_datetime now r.created_at;
    updated_at = parse_datetime now r.updated_at;
    locktime_waiting = none;
    locktime_deferred = none;
    can_reschedule = none;
    chain_mtp = none;
    locktime_target = none;
    locktime_remaining_secs = none;
    locktime_kind = none;
    locktime_remaining_blocks = none;
    locktime_satisfied = none;
    current_btc_price = none;
    tampered = some (not (same_text r.row_mac (expected_mac key r)));
  }
