-- ===== src/Db/Write/RoundTrip.antt =====
-- What an insert of src/db/mod.rs stores is read back.
use broadcast_pool.Prelude.{
  ℕ, ◌<◌, ◌^◌, String, false, ◌≡◌, refl, ap, Option, none, some, List, [], ◌∷◌, ◌++◌, length, arith,
  ok, unwrap_or, or_else, str_eq_iff, str_eq_refl, Bool-cases, inl, inr,
}
use mathlib.Core.Option
use broadcast_pool.Platform.{Platform, Decodes}
use broadcast_pool.Models.{BroadcastTx, NewBroadcastTx, pending}
use broadcast_pool.Models
use broadcast_pool.Crypto.{encode_field}
use broadcast_pool.Crypto.RoundTrip.{decode_field-encode_field}
use broadcast_pool.Db.{
  Row, Database, by_id, find, expected_mac, decode_or_keep, parse_optional_datetime,
  map_broadcast_row,
}
use broadcast_pool.Db.Write.{new_row, get_broadcast_tx_by_id, insert_broadcast_tx}

-- The transaction that an insert is to make, with the defaults of the fields that were left out.
abbrev pub imported : ℕ → String → Option ℕ → NewBroadcastTx → BroadcastTx
imported now id derived tx = record {
  id = id;
  tx_hex = tx.tx_hex;
  txid = none;
  status = pending;
  network = tx.network;
  nlocktime = some (unwrap_or tx.nlocktime 0);
  broadcast_mode = some (unwrap_or tx.broadcast_mode "immediate");
  scheduled_time = tx.scheduled_time;
  broadcast_at = none;
  confirmed_at = none;
  block_height = none;
  target_fee_rate = tx.target_fee_rate;
  actual_fee_rate = none;
  source_label = tx.source_label;
  destination_address = tx.destination_address;
  utxo_count = unwrap_or tx.utxo_count 1;
  total_value_btc = unwrap_or (or_else tx.total_value_btc derived) 0;
  replacement_of = tx.replacement_of;
  error_message = none;
  retry_count = 0;
  broadcast_missed_at = none;
  original_scheduled_time = none;
  defer_until = none;
  schedule_trigger = some "datetime";
  target_price = none;
  price_currency = none;
  price_condition = none;
  created_at = now;
  updated_at = now;
  locktime_waiting = none;
  locktime_deferred = none;
  can_reschedule = none;
  chain_mtp = none;
  locktime_target = none;
  locktime_remaining_secs = none;
  locktime_kind = none;
  locktime_remaining_blocks = none;
  locktime_satisfied = none;
  current_btc_price = none;
  tampered = some false;
}

find_snoc :
    (id : String) (r : Row) (rs : List Row)
    → r.id ≡ id
    → find id rs ≡ none
    → find id (rs ++ r ∷ []) ≡ some r
unfolding find
find_snoc id r [] own e = ground (arith, str_eq_iff r.id id)
find_snoc id r (x ∷ rs) own e = elim (Bool-cases (by_id id x)) [
  | inl hit ↦ absurd (ground (arith, hit))
  | inr miss ↦ rw miss (find_snoc id r rs own (rw miss at e))
]

module _ ⦃p : Platform⦄ (laws : Decodes p) (nonce : ℕ → List ℕ)
    (sized : (n : ℕ) → length (nonce n) ≡ 12) (key : List ℕ) (now : ℕ) (id : String) where
  kept_field :
      (n : ℕ) (s : String)
      → decode_or_keep key id (encode_field (nonce n) key s (p.as_bytes id)) ≡ s
  unfolding decode_or_keep
  kept_field n s =
      ground (arith, (decode_field-encode_field laws (nonce n) key (sized n) s (p.as_bytes id)).1)

  kept_option :
      (n : ℕ) (o : Option String)
      → Option.map
          (decode_or_keep key id)
          (Option.map (λ s. encode_field (nonce n) key s (p.as_bytes id)) o)
        ≡ o
  kept_option n none = refl
  kept_option n (some s) = ap some (kept_field n s)

  kept_time : (o : Option ℕ) → parse_optional_datetime now (Option.map p.rfc3339 o) ≡ o
  kept_time none = refl
  kept_time (some t) = ap some (rw (laws.time t) refl)

  read_new_row :
      (derived : Option ℕ) (tx : NewBroadcastTx)
      → map_broadcast_row now key (new_row key now id nonce derived tx) ≡ imported now id derived tx
  unfolding map_broadcast_row new_row expected_mac Models.from_str
  read_new_row derived tx =
      let row = new_row key now id nonce derived tx in
      simp
        (
          kept_field 0 tx.tx_hex,
          kept_option 2 tx.source_label,
          kept_option 1 tx.destination_address,
          kept_time tx.scheduled_time,
          laws.time now,
          str_eq_refl (expected_mac key row),
        )
        refl

  -- With codecs that decode what they encode and nonces of 12 bytes, an insert under a fresh id, of
  -- a transaction whose nLockTime is below 2^63, gives the transaction with the defaults in place,
  -- untampered, and a later read gives the same.
  pub insert_broadcast_tx-get :
      (derived : Option ℕ) (tx : NewBroadcastTx) (db : Database)
      → db.key ≡ key
      → find id db.pool ≡ none
      → unwrap_or tx.nlocktime 0 < 2 ^ 63
      → ((insert_broadcast_tx now id nonce derived tx db).0 ≡ ok (imported now id derived tx))
        × ((get_broadcast_tx_by_id now id (insert_broadcast_tx now id nonce derived tx db).1).0
            ≡ ok (imported now id derived tx))
  unfolding insert_broadcast_tx get_broadcast_tx_by_id
  insert_broadcast_tx-get derived tx db opened fresh small = (
    ground (arith, read_new_row derived tx, found),
    ground (arith, read_new_row derived tx, found),
  )
    where
      found :
          find id (db.pool ++ new_row key now id nonce derived tx ∷ [])
          ≡ some (new_row key now id nonce derived tx)
      found =
          find_snoc id (new_row key now id nonce derived tx) db.pool (unfold new_row in refl) fresh
