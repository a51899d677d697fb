-- ===== src/Electrum/Ingest/Kept.antt =====
-- What an ingest of src/electrum_server/mod.rs leaves in the pool.
use broadcast_pool.Prelude.{
  ℕ, ◌<◌, ◌^◌, unwrap_or, or_else, ltb, if◌then◌else◌, if-cases, ◌+◌, String, true, Option, none,
  some, Result, ok, trim, ◌≡◌, ◌≢◌, refl, ◌∙◌, ap, str_eq_refl, arith, length,
}
use broadcast_pool.Platform.{Platform, Decodes}
use broadcast_pool.Models.{BroadcastTx, NewBroadcastTx}
use broadcast_pool.Transactions.{Transaction, Codec, decode_tx}
use broadcast_pool.Db.{find}
use broadcast_pool.Db.Write.{get_broadcast_tx_by_id}
use broadcast_pool.Db.Write.RoundTrip.{imported, insert_broadcast_tx-get}
use broadcast_pool.Pool.{
  BroadcastMode, immediate, scheduled, by_block, manual, Backends, PoolManager, PendingTxInfo,
}
use broadcast_pool.Pool.Mempool.{lookup, store_pending_tx}
use broadcast_pool.Pool.Mempool.Refines.{lookup-insert}
use broadcast_pool.Pool.Broadcast.{import_transaction}
use broadcast_pool.Pool.Tick.{mark_as_due}
use broadcast_pool.Electrum.Plan.{Plan, resolve_ingest_plan}
use broadcast_pool.Electrum.Ingest.{
  Fresh, BroadcastHandleResult, handle_broadcast, handle_decoded, retain, capture_virtual_target,
  is_armed_block, new_tx, draw, store_pending_outputs, output_scripthashes_of, outputs_of,
}

module _ ⦃p : Platform⦄ ⦃c : Codec⦄ ⦃b : Backends⦄ where
  abbrev pub retained_as : String → String → BroadcastHandleResult
  retained_as txid hex = record {
    txid = txid;
    tx_hex = hex;
    retained = true;
    affected_scripthashes = output_scripthashes_of hex;
  }

  abbrev pub kept_info : String → PendingTxInfo
  kept_info hex = record {
    tx_hex = hex;
    scripthashes = output_scripthashes_of hex;
    outputs = outputs_of hex;
  }

  stored-lookup :
      (txid hex : String) (s : PoolManager)
      → lookup txid (store_pending_outputs txid hex s).pending_txs ≡ some (kept_info hex)
  unfolding store_pending_outputs store_pending_tx
  stored-lookup txid hex s = lookup-insert txid txid _ s.pending_txs ∙ rw (str_eq_refl txid) refl

  retain-Kept :
      (mode : BroadcastMode) (txid hex : String) (tx : BroadcastTx) (s : PoolManager)
      → ((retain mode txid hex tx s).0 ≡ ok (retained_as txid hex))
        × (lookup txid (retain mode txid hex tx s).1.pending_txs ≡ some (kept_info hex))
  unfolding retain mark_as_due
  retain-Kept immediate txid hex tx s = (refl, stored-lookup txid hex s)
  retain-Kept scheduled txid hex tx s = (refl, stored-lookup txid hex s)
  retain-Kept by_block txid hex tx s = (refl, stored-lookup txid hex s)
  retain-Kept manual txid hex tx s = (refl, stored-lookup txid hex s)

  pub retain-db :
      (mode : BroadcastMode) (txid hex : String) (tx : BroadcastTx) (s : PoolManager)
      → mode ≢ immediate
      → (retain mode txid hex tx s).1.db ≡ s.db
  unfolding retain store_pending_outputs store_pending_tx
  retain-db immediate txid hex tx s n = absurd (n refl)
  retain-db scheduled txid hex tx s n = refl
  retain-db by_block txid hex tx s n = refl
  retain-db manual txid hex tx s n = refl

  captured-db :
      (mode : BroadcastMode) (source : String) (s : PoolManager)
      → (capture_virtual_target mode source s).1.db ≡ s.db
  unfolding capture_virtual_target
  captured-db mode source s = ground arith

  module _ (fresh : Fresh) (source hex : String) (tx : Transaction) (s : PoolManager) where
    abbrev pub planned : Plan
    planned =
        resolve_ingest_plan (draw fresh (b.now s.calls)) source tx.lock_time s.config
          s.chain_health.height

    -- The height that an armed transaction waits for, and the pool at its import.
    abbrev pub at_import : Option ℕ × PoolManager
    at_import = capture_virtual_target planned.0 source (record s { calls = s.calls + 1 })

    abbrev pub entry : NewBroadcastTx
    entry = new_tx hex tx source planned at_import.0 at_import.1

    abbrev pub import : Result BroadcastTx × PoolManager
    import = import_transaction fresh.id fresh.nonce fresh.derived entry at_import.1

    pub decoded-retained :
        (im : BroadcastTx)
        → import.0 ≡ ok im
        → handle_decoded fresh source hex tx s ≡ retain planned.0 (c.txid tx) hex im import.1
    unfolding handle_decoded
    decoded-retained im e = rw e refl

    -- SQLite takes the lock, the armed height or the transaction's own.
    entry-Fits :
        s.config.liana_virtual_block.target_height < 2 ^ 63
        → tx.lock_time < 2 ^ 32
        → unwrap_or entry.nlocktime 0 < 2 ^ 63
    unfolding capture_virtual_target
    entry-Fits low own =
        if-cases
          (λ (t : Option ℕ × PoolManager).
            unwrap_or (or_else t.0 (if ltb 0 tx.lock_time then some tx.lock_time else none)) 0
            < 2 ^ 63)
          (is_armed_block planned.0 source s.config) (λ _. low) (λ _. ground (arith, own))

    pub stored :
        (laws : Decodes p)
        → ((n : ℕ) → length (fresh.nonce n) ≡ 12)
        → find fresh.id s.db.pool ≡ none
        → s.config.liana_virtual_block.target_height < 2 ^ 63
        → tx.lock_time < 2 ^ 32
        → (im : BroadcastTx) × ((import.0 ≡ ok im)
            × (((get_broadcast_tx_by_id (b.now at_import.1.calls) fresh.id import.1.db).0 ≡ ok im)
                × (im ≡ imported (b.now at_import.1.calls) fresh.id fresh.derived entry)))
    unfolding import_transaction
    stored laws sized free low own =
        let key = at_import.1.db.key in
        let same = captured-db planned.0 source (record s { calls = s.calls + 1 }) in
        let got =
          insert_broadcast_tx-get laws fresh.nonce sized key (b.now at_import.1.calls) fresh.id
            fresh.derived entry at_import.1.db refl (ap (λ d. find fresh.id d.pool) same ∙ free)
            (entry-Fits low own) in
        (imported (b.now at_import.1.calls) fresh.id fresh.derived entry, (got.0, (got.1, refl)))

  pub broadcast-decoded :
      (fresh : Fresh) (source hex : String) (tx : Transaction) (s : PoolManager)
      → decode_tx hex ≡ ok tx
      → handle_broadcast fresh source hex s ≡ handle_decoded fresh source (trim hex) tx s
  unfolding handle_broadcast
  broadcast-decoded fresh source hex tx s e = rw e refl

  module _ (laws : Decodes p) (fresh : Fresh) (source hex : String) (tx : Transaction)
      (s : PoolManager) where
    -- With codecs that decode what they encode, nonces of 12 bytes, a fresh row id, an armed height
    -- below 2^63 and a transaction that decodes, with a lock below 2^32, the ingest does not fail,
    -- and the virtual mempool then holds the transaction under its id, with the outputs and the
    -- script hashes of its outputs, in every mode and from every source.
    pub handle_broadcast-Kept :
        ((n : ℕ) → length (fresh.nonce n) ≡ 12)
        → find fresh.id s.db.pool ≡ none
        → decode_tx hex ≡ ok tx
        → s.config.liana_virtual_block.target_height < 2 ^ 63
        → tx.lock_time < 2 ^ 32
        → ((handle_broadcast fresh source hex s).0 ≡ ok (retained_as (c.txid tx) (trim hex)))
          × (lookup (c.txid tx) (handle_broadcast fresh source hex s).1.pending_txs
              ≡ some (kept_info (trim hex)))
    handle_broadcast-Kept sized free e low own =
        let (im, (done, row)) = stored fresh source (trim hex) tx s laws sized free low own in
        rw
          (
            broadcast-decoded fresh source hex tx s e,
            decoded-retained fresh source (trim hex) tx s im done,
          )
          (retain-Kept (planned fresh source (trim hex) tx s).0 (c.txid tx) (trim hex) im
            (import fresh source (trim hex) tx s).1)

    -- Under the same conditions, and where the plan is not to send at once, a read of the new row
    -- gives what an insert of the planned transaction is to make.
    pub handle_broadcast-Row :
        ((n : ℕ) → length (fresh.nonce n) ≡ 12)
        → find fresh.id s.db.pool ≡ none
        → decode_tx hex ≡ ok tx
        → s.config.liana_virtual_block.target_height < 2 ^ 63
        → tx.lock_time < 2 ^ 32
        → (planned fresh source (trim hex) tx s).0 ≢ immediate
        → (now : ℕ) × ((get_broadcast_tx_by_id now fresh.id
              (handle_broadcast fresh source hex s).1.db).0
            ≡ ok (imported now fresh.id fresh.derived (entry fresh source (trim hex) tx s)))
    handle_broadcast-Row sized free e low own later =
        let (im, (done, (read, same))) =
          stored fresh source (trim hex) tx s laws sized free low own in
        let now = b.now (at_import fresh source (trim hex) tx s).1.calls in
        let kept =
          retain-db (planned fresh source (trim hex) tx s).0 (c.txid tx) (trim hex) im
            (import fresh source (trim hex) tx s).1 later in
        (
          now,
          rw
              (
                broadcast-decoded fresh source hex tx s e,
                decoded-retained fresh source (trim hex) tx s im done,
              )
              (ap (λ d. (get_broadcast_tx_by_id now fresh.id d).0) kept ∙ read ∙ ap ok same),
        )
