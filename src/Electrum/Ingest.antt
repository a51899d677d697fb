-- ===== src/Electrum/Ingest.antt =====
-- src/electrum_server/mod.rs: taking a transaction that a wallet broadcasts into the pool.
pub mod Described
pub mod Kept
pub mod Target
use broadcast_pool.Prelude.{
  ℕ, ◌+◌, ◌-◌, ◌^◌, min, String, Bool, true, false, ◌&&◌, Option, none, some, List, [], ◌∷◌,
  if◌then◌else◌, str_eq, or_else, trim, ltb, ◌==◌, length, Result, ok, err, ◌>>=◌, ◌>>◌, pure, lift,
  gets, modify, attempt,
}
use broadcast_pool.Platform.{Platform}
use broadcast_pool.Models.{BroadcastTx, NewBroadcastTx}
use broadcast_pool.Json.{Value, string, object, end, field, number, neg_int}
use broadcast_pool.Transactions.{
  Transaction, Codec, decode_tx, compute_txid, extract_outputs, extract_affected_scripthashes_opts,
  strip_indexer_host, enrich_input_scripthashes,
}
use broadcast_pool.Pool.{
  BroadcastMode, immediate, by_block, Config, Backends, PoolManager, Manager, PendingTxOutput, ask,
}
use broadcast_pool.Pool.Mempool.{store_pending_tx, merge_pending_scripthashes}
use broadcast_pool.Pool.Broadcast.{import_transaction}
use broadcast_pool.Pool.Tick.{mark_as_due}
use broadcast_pool.Electrum.{SessionState}
use broadcast_pool.Electrum.Plan.{Draw, Plan, resolve_ingest_plan, mode_text}
use broadcast_pool.Electrum.Source.{effective_source}

pub record BroadcastHandleResult : Type 0 where
  pub txid : String
  pub tx_hex : String
  pub retained : Bool
  pub affected_scripthashes : List String

-- What one ingest draws: the row's uuid and nonces, the value that the database finds in the
-- outputs, and the plan's numbers (its clock is the pool's).
pub record Fresh : Type 0 where
  pub id : String
  pub nonce : ℕ → List ℕ
  pub derived : Option ℕ
  pub parse_naive : String → Option ℕ
  pub gen_range : ℕ → ℕ → ℕ

abbrev pub is_armed_block : BroadcastMode → String → Config → Bool
is_armed_block by_block source config = str_eq source "liana" && config.liana_virtual_block.enabled
is_armed_block _ source config = false

-- The height that an armed Liana transaction waits for. The served height goes up by two, at most to
-- the largest `u64`; writing the configuration to disk is not modelled, its error is logged only.
unfoldable pub capture_virtual_target :
    BroadcastMode → String → PoolManager → Option ℕ × PoolManager
capture_virtual_target mode source s =
    let block = s.config.liana_virtual_block in
    if is_armed_block mode source s.config
    then (
      some block.target_height,
      record s {
        config = record s.config {
          liana_virtual_block = record block {
            target_height = min (block.target_height + 2) (2 ^ 64 - 1);
          };
        };
      },
    )
    else (none, s)

abbrev result_or : {A : Type 0} → A → Result A → A
result_or d (ok a) = a
result_or d (err e) = d

-- The network is not asked for the script hashes of the outputs.
abbrev pub offline : String → Option Transaction
offline txid = none

module _ ⦃p : Platform⦄ ⦃c : Codec⦄ where
  unfoldable pub output_scripthashes_of : String → List String
  output_scripthashes_of tx_hex =
      result_or [] (extract_affected_scripthashes_opts offline tx_hex true)

  unfoldable pub outputs_of : String → List PendingTxOutput
  outputs_of tx_hex = result_or [] (extract_outputs tx_hex)

  unfoldable pub store_pending_outputs : String → String → PoolManager → PoolManager
  unfolding output_scripthashes_of outputs_of
  store_pending_outputs txid tx_hex =
      store_pending_tx txid tx_hex (output_scripthashes_of tx_hex) (outputs_of tx_hex)

  abbrev pub new_tx : String → Transaction → String → Plan → Option ℕ → PoolManager → NewBroadcastTx
  new_tx tx_hex tx source plan target s = record {
    tx_hex = tx_hex;
    network = s.config.network;
    nlocktime = or_else target (if ltb 0 tx.lock_time then some tx.lock_time else none);
    broadcast_mode = some (mode_text plan.0);
    scheduled_time = plan.1;
    target_fee_rate = none;
    source_label = some source;
    destination_address = none;
    utxo_count = some (length tx.inputs);
    total_value_btc = none;
    replacement_of = none;
  }

  module _ ⦃b : Backends⦄ where
    abbrev draw : Fresh → ℕ → Draw
    draw fresh now = record {
      now = now;
      parse_naive = fresh.parse_naive;
      gen_range = fresh.gen_range;
    }

    -- After the import. An error of `mark_as_due` is logged only.
    unfoldable pub retain :
        BroadcastMode → String → String → BroadcastTx → Manager BroadcastHandleResult
    unfolding store_pending_outputs mark_as_due output_scripthashes_of
    retain mode txid tx_hex imported = do
      modify (store_pending_outputs txid tx_hex)
      elim mode [ immediate ↦ attempt (mark_as_due imported.id) >> pure tt | _ ↦ pure tt ]
      pure (record {
        txid = txid;
        tx_hex = tx_hex;
        retained = true;
        affected_scripthashes = output_scripthashes_of tx_hex;
      })

    -- The clock is read whether or not the plan uses it.
    unfoldable pub handle_decoded :
        Fresh → String → String → Transaction → Manager BroadcastHandleResult
    unfolding resolve_ingest_plan capture_virtual_target import_transaction retain
    handle_decoded fresh source tx_hex tx = do
      now ← ask b.now
      plan ← gets (λ s.
          resolve_ingest_plan (draw fresh now) source tx.lock_time s.config s.chain_health.height)
      target ← (λ s. let (t, s') = capture_virtual_target plan.0 source s in (ok t, s'))
      new ← gets (new_tx tx_hex tx source plan target)
      imported ← import_transaction fresh.id fresh.nonce fresh.derived new
      retain plan.0 (c.txid tx) tx_hex imported

    unfoldable pub handle_broadcast : Fresh → String → String → Manager BroadcastHandleResult
    unfolding trim decode_tx handle_decoded
    handle_broadcast fresh source tx_hex = do
      tx ← lift (decode_tx tx_hex)
      handle_decoded fresh source (trim tx_hex) tx
