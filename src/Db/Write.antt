-- ===== src/Db/Write.antt =====
-- The statements of src/db/mod.rs that change a row of the pool.
pub mod RoundTrip
use broadcast_pool.Prelude.{
  ℕ, String, Bool, true, false, ◌&&◌, ◌==◌, ◌^◌, leb, Option, none, some, List, [], ◌∷◌, ◌++◌,
  str_eq, length, if◌then◌else◌, ok, err, Exec, ◌>>◌, modify, unwrap_or, or_else, is_none, select,
  concat,
}
use mathlib.Core.Option
use broadcast_pool.Platform.{Platform}
use broadcast_pool.Models.{TxStatus, BroadcastTx, NewBroadcastTx, as_str}
use broadcast_pool.Crypto.{encode_field, mac}
use broadcast_pool.Db.{
  Row, Database, by_id, find, update_where, row_mac_input, reseal_row_mac, map_broadcast_row,
}

-- `UPDATE broadcast_pool SET … WHERE id = ?`
abbrev pub update_by_id : String → (Row → Row) → Exec Database (Unit {0})
update_by_id id f = modify (λ db. record db { pool = update_where (by_id id) f db.pool })

module _ ⦃p : Platform⦄ where
  unfoldable pub get_broadcast_tx_by_id : ℕ → String → Exec Database BroadcastTx
  get_broadcast_tx_by_id now id db = elim (find id db.pool) [
    | none ↦ (err "Failed to get broadcast tx", db)
    | some r ↦ (ok (map_broadcast_row now db.key r), db)
  ]

  -- The row that an insert writes. `id` is the fresh uuid, the nonces are those of the three
  -- encryptions, `derived` is the value of the transaction's outputs, if it decodes.
  unfoldable pub new_row : List ℕ → ℕ → String → (ℕ → List ℕ) → Option ℕ → NewBroadcastTx → Row
  new_row key now id nonce derived tx = record {
    id = id;
    tx_hex = enc_tx_hex;
    txid = none;
    status = as_str TxStatus.pending;
    network = tx.network;
    nlocktime = nlocktime;
    broadcast_mode = some broadcast_mode;
    scheduled_time = scheduled;
    broadcast_at = none;
    confirmed_at = none;
    block_height = none;
    target_fee_rate = tx.target_fee_rate;
    actual_fee_rate = none;
    source_label = Option.map (λ s. encode_field (nonce 2) key s (p.as_bytes id)) tx.source_label;
    destination_address = enc_dest;
    utxo_count = unwrap_or tx.utxo_count 1;
    total_value_btc = unwrap_or (or_else tx.total_value_btc derived) 0;
    replacement_of = tx.replacement_of;
    error_message = none;
    retry_count = 0;
    broadcast_missed_at = none;
    original_scheduled_time = none;
    defer_until = none;
    schedule_trigger = some "datetime";
    target_price = none;
    price_currency = none;
    price_condition = none;
    created_at = p.rfc3339 now;
    updated_at = p.rfc3339 now;
    row_mac = some (
        p.hex_encode (
          mac key (
            row_mac_input id (as_str TxStatus.pending) broadcast_mode (unwrap_or scheduled "")
              nlocktime "" "datetime" "" enc_tx_hex (unwrap_or enc_dest ""))));
  }
    where
      enc_tx_hex : String
      enc_tx_hex = encode_field (nonce 0) key tx.tx_hex (p.as_bytes id)

      enc_dest : Option String
      enc_dest =
          Option.map (λ d. encode_field (nonce 1) key d (p.as_bytes id)) tx.destination_address

      scheduled : Option String
      scheduled = Option.map p.rfc3339 tx.scheduled_time

      nlocktime : ℕ
      nlocktime = unwrap_or tx.nlocktime 0

      broadcast_mode : String
      broadcast_mode = unwrap_or tx.broadcast_mode "immediate"

  -- A second row of the same `id` would break the primary key, and rusqlite binds no number of 2^63 or more.
  unfoldable pub insert_broadcast_tx :
      ℕ → String → (ℕ → List ℕ) → Option ℕ → NewBroadcastTx → Exec Database BroadcastTx
  insert_broadcast_tx now id nonce derived tx db = elim (find id db.pool) [
    | some _ ↦ (err "Failed to insert broadcast tx", db)
    | none ↦
        if leb (2 ^ 63) (unwrap_or tx.nlocktime 0)
        then (err "Failed to insert broadcast tx", db)
        else get_broadcast_tx_by_id now id
            (record db { pool = db.pool ++ new_row db.key now id nonce derived tx ∷ [] })
  ]

  unfoldable pub update_tx_status : ℕ → String → TxStatus → Option String → Exec Database (Unit {0})
  update_tx_status now id status error = do
    update_by_id id (λ r. record r {
      status = as_str status;
      error_message = error;
      updated_at = p.rfc3339 now;
    })
    reseal_row_mac id

  -- `WHERE id = ?2 AND status = 'failed'`, refused when no row fits.
  unfoldable pub reset_failed_to_scheduled : ℕ → String → Exec Database (Unit {0})
  reset_failed_to_scheduled now id db =
      let test : Row → Bool = λ r. by_id id r && str_eq r.status "failed" in
      if length (select test db.pool) == 0
      then (err (concat "Transaction " (concat id " is not in failed state")), db)
      else reseal_row_mac id (record db {
        pool =
            update_where test
              (λ r. record r {
                status = "scheduled";
                error_message = none;
                updated_at = p.rfc3339 now;
              })
              db.pool;
      })

  unfoldable pub mark_broadcast : ℕ → String → String → ℕ → Exec Database (Unit {0})
  mark_broadcast now id txid fee_rate = do
    update_by_id id (λ r. record r {
      status = "broadcast";
      txid = some txid;
      actual_fee_rate = some fee_rate;
      broadcast_at = some (p.rfc3339 now);
      updated_at = p.rfc3339 now;
      broadcast_missed_at = none;
      defer_until = none;
    })
    reseal_row_mac id

  unfoldable pub mark_confirmed : ℕ → String → ℕ → Exec Database (Unit {0})
  mark_confirmed now id block_height = do
    update_by_id id (λ r. record r {
      status = "confirmed";
      block_height = some block_height;
      confirmed_at = some (p.rfc3339 now);
      updated_at = p.rfc3339 now;
    })
    reseal_row_mac id

  -- The first miss counts, and so does the first scheduled time. No MAC-covered column changes.
  unfoldable pub record_broadcast_miss :
      ℕ → String → String → Option String → Exec Database (Unit {0})
  record_broadcast_miss now id missed_at original = modify (λ db. record db {
    pool =
        update_where (λ r. by_id id r && is_none r.broadcast_missed_at)
          (λ r. record r {
            broadcast_missed_at = some missed_at;
            original_scheduled_time = or_else r.original_scheduled_time original;
            updated_at = p.rfc3339 now;
          })
          db.pool;
  })

  unfoldable pub update_reschedule :
      ℕ → String → String → Option String → ℕ → Exec Database (Unit {0})
  update_reschedule now id scheduled_time defer_until fee_rate = do
    update_by_id id (λ r. record r {
      status = "scheduled";
      scheduled_time = some scheduled_time;
      defer_until = defer_until;
      target_fee_rate = some fee_rate;
      error_message = none;
      schedule_trigger = some "datetime";
      target_price = none;
      price_currency = none;
      price_condition = none;
      updated_at = p.rfc3339 now;
    })
    reseal_row_mac id

  unfoldable pub update_price_schedule :
      ℕ → String → ℕ → String → String → ℕ → Exec Database (Unit {0})
  update_price_schedule now id target_price currency condition fee_rate = do
    update_by_id id (λ r. record r {
      status = "pending";
      scheduled_time = none;
      defer_until = none;
      target_fee_rate = some fee_rate;
      error_message = none;
      schedule_trigger = some "price";
      target_price = some target_price;
      price_currency = some currency;
      price_condition = some condition;
      updated_at = p.rfc3339 now;
    })
    reseal_row_mac id

  unfoldable pub mark_due : ℕ → String → Exec Database (Unit {0})
  mark_due now id = do
    update_by_id id (λ r. record r {
      status = "scheduled";
      scheduled_time = some (p.rfc3339 now);
      updated_at = p.rfc3339 now;
    })
    reseal_row_mac id

  unfoldable pub mark_due_from_price_trigger : ℕ → String → Exec Database (Unit {0})
  mark_due_from_price_trigger now id = do
    update_by_id id (λ r. record r {
      status = "scheduled";
      scheduled_time = some (p.rfc3339 now);
      schedule_trigger = some "datetime";
      updated_at = p.rfc3339 now;
    })
    reseal_row_mac id

  unfoldable pub mark_due_with_schedule : ℕ → String → ℕ → Exec Database (Unit {0})
  mark_due_with_schedule now id scheduled_time = do
    update_by_id id (λ r. record r {
      status = "scheduled";
      scheduled_time = some (p.rfc3339 scheduled_time);
      updated_at = p.rfc3339 now;
    })
    reseal_row_mac id

  -- The number of rows that went.
  unfoldable pub remove_broadcast_tx : String → Exec Database ℕ
  remove_broadcast_tx id db = (
    ok (length (select (by_id id) db.pool)),
    record db { pool = select (λ r. if by_id id r then false else true) db.pool },
  )
