-- ===== src/Pool/Broadcast.antt =====
-- Handing transactions to the network: src/pool/manager.rs from `broadcast_transaction` to
-- `broadcast_due_transactions`.
use broadcast_pool.Prelude.{
  ℕ, ◌+◌, ◌*◌, ◌/◌, String, Bool, true, false, ◌&&◌, ◌||◌, ltb, Option, none, some, List, [], ◌∷◌,
  ◌++◌, if◌then◌else◌, Result, ok, err, ◌>>=◌, ◌>>◌, pure, bail, lift, gets, modify, attempt,
  is_none, is_some_and, unwrap_or, codes, lower, contains,
}
use mathlib.Core.Option
use broadcast_pool.Platform.{Platform}
use broadcast_pool.Models.{TxStatus, BroadcastTx, NewBroadcastTx, one}
use broadcast_pool.Db.Write
use broadcast_pool.Db.Write.{get_broadcast_tx_by_id, insert_broadcast_tx}
use broadcast_pool.Db.Read.{get_due_transactions}
use broadcast_pool.Pool.{Backends, PoolManager, Manager, on_db, ask}
use broadcast_pool.Pool.Safe.{enter_safe_mode}
use broadcast_pool.Pool.Health.{should_try_indexer, get_median_time_past_cached}
use broadcast_pool.Pool.Mempool.{remove_pending_tx}
use broadcast_pool.Pool.Due.{is_locktime_satisfied, is_tx_due_for_broadcast, locktime_threshold}

unfoldable pub is_retriable_broadcast_error : String → Bool
is_retriable_broadcast_error msg =
    let m = lower (codes msg) in
    contains (codes "non-final") m
    || contains (codes "non final") m
    || contains (codes "not final") m
    || contains (codes "locktime") m
    || contains (codes "too-long-mempool-chain") m

-- `(btc * 100_000_000.0).round()`; a value is not negative here, so half goes up.
unfoldable pub btc_to_sats : ℕ → ℕ
btc_to_sats btc = (btc * 100_000_000 + one / 2) / one

abbrev pub no_chain_source : String
no_chain_source = "no chain data source available"

abbrev pub blind : String
blind = "Cannot verify this transaction's nLockTime without a chain data source"

abbrev pub is_tampered : BroadcastTx → Bool
is_tampered tx = elim tx.tampered [ some true ↦ true | _ ↦ false ]

abbrev pub logged : String → PoolManager → PoolManager
logged tx_hex s = record s { sent = s.sent ++ tx_hex ∷ [] }

module _ ⦃b : Backends⦄ where
  -- An error of the indexer is kept for the case that there is no Bitcoin Core.
  abbrev via_rpc : String → Option String → Manager String
  via_rpc tx_hex e =
      if b.has_rpc
      then (do modify (logged tx_hex); r ← ask (λ n. b.rpc_broadcast n tx_hex); lift r)
      else bail (unwrap_or e "No broadcast backend available (neither Indexer nor RPC)")

  abbrev via_indexer : String → Result String → Manager String
  via_indexer tx_hex (ok txid) = pure txid
  via_indexer tx_hex (err e) = via_rpc tx_hex (some e)

  unfoldable pub broadcast_transaction : String → Manager String
  broadcast_transaction tx_hex = do
    use_indexer ← gets (λ s. should_try_indexer s.chain_health && b.has_indexer s.calls)
    if use_indexer
        then (do
          modify (logged tx_hex)
          r ← ask (λ n. b.indexer_broadcast n tx_hex)
          via_indexer tx_hex r)
        else via_rpc tx_hex none

  -- The locktime gate, with its error rewritten.
  abbrev checked : Result Bool → Manager Bool
  checked (ok satisfied) = pure satisfied
  checked (err e) = bail blind

  unfoldable pub check_locktime : Option ℕ → Manager Bool
  check_locktime nlocktime = do r ← attempt (is_locktime_satisfied nlocktime); checked r

module _ ⦃p : Platform⦄ ⦃b : Backends⦄ where
  unfoldable pub import_transaction :
      String → (ℕ → List ℕ) → Option ℕ → NewBroadcastTx → Manager BroadcastTx
  import_transaction id nonce derived tx = do
    now ← ask b.now
    on_db (insert_broadcast_tx now id nonce derived tx)

  unfoldable pub mark_broadcast : String → String → ℕ → Manager (Unit {0})
  mark_broadcast id txid fee_rate = do
    now ← ask b.now
    on_db (Write.mark_broadcast now id txid fee_rate)
    modify (λ s. (remove_pending_tx txid s).1)

  unfoldable pub announce : BroadcastTx → String → Manager (Unit {0})
  announce tx txid = do
    now ← ask b.now
    modify (λ s. record s {
      broadcast_notifications =
          s.broadcast_notifications
          ++ (record {
            txid = txid;
            amount_sats = btc_to_sats tx.total_value_btc;
            source_label = tx.source_label;
            created_at = some tx.created_at;
            broadcast_at = now;
            network = tx.network;
          })
            ∷ [];
    })

  -- What follows a transaction that a backend accepted.
  unfoldable pub record_broadcast : BroadcastTx → String → Manager (Unit {0})
  record_broadcast tx txid = do
    mark_broadcast tx.id txid (unwrap_or tx.target_fee_rate 0)
    announce tx txid

  -- The text says how long is left; that it reads the chain time for it stays.
  abbrev not_final : Option ℕ → Manager String
  not_final nlocktime =
      if ltb locktime_threshold (unwrap_or nlocktime 0)
      then (do
        attempt get_median_time_past_cached
        bail "The transaction's own nLockTime is not reached yet")
      else bail "The transaction's own nLockTime targets a block that the chain has not reached"

  abbrev send_now : BroadcastTx → Manager String
  send_now tx = do
    locktime_ok ← check_locktime tx.nlocktime
    if locktime_ok
        then (do txid ← broadcast_transaction tx.tx_hex; record_broadcast tx txid; pure txid)
        else not_final tx.nlocktime

  abbrev unless_emitted : BroadcastTx → Manager String
  unless_emitted tx = elim tx.status [
    | TxStatus.broadcast ↦ bail "This transaction has already been broadcast."
    | TxStatus.confirmed ↦ bail "This transaction is already confirmed."
    | _ ↦ send_now tx
  ]

  unfoldable pub broadcast_now : String → Manager String
  broadcast_now id = do
    safe ← gets (λ s. s.safe_mode)
    if safe then bail "Safe mode is active after a tampered row was detected" else do
      now ← ask b.now
      tx ← on_db (get_broadcast_tx_by_id now id)
      if is_tampered tx
          then (do
            modify (enter_safe_mode tx.id)
            bail "This row failed its integrity check — broadcasting halted.")
          else unless_emitted tx

  unfoldable pub record_first_miss : BroadcastTx → ℕ → Manager (Unit {0})
  record_first_miss tx now =
      if is_none tx.broadcast_missed_at
      then (do
        at ← ask b.now
        r ← attempt (
            on_db (
              Write.record_broadcast_miss at tx.id (p.rfc3339 now)
                (Option.map p.rfc3339 tx.scheduled_time)))
        pure tt)
      else pure tt

  -- A timestamp lock that is not reached is recorded as a miss, once, and an error of that is logged
  -- only; the chain time is read again for the log.
  unfoldable pub note_miss : BroadcastTx → ℕ → Manager (Unit {0})
  note_miss tx now =
      if is_some_and tx.nlocktime (λ n. ltb locktime_threshold n)
      then (do record_first_miss tx now; mtp ← attempt get_median_time_past_cached; pure tt)
      else pure tt

  abbrev pub Outcomes : Type 0
  Outcomes = List (String × Result String)

  -- The end of one round of the loop: the outcome of a broadcast, if there was one.
  unfoldable pub after_broadcast : BroadcastTx → Result String → Manager (Unit {0})
  after_broadcast tx (ok txid) = record_broadcast tx txid
  after_broadcast tx (err e) =
      if is_retriable_broadcast_error e
      then pure tt
      else do now ← ask b.now; on_db (Write.update_tx_status now tx.id TxStatus.failed (some e))

  -- One row that passed the halts.
  unfoldable pub broadcast_one : BroadcastTx → ℕ → Manager Outcomes
  broadcast_one tx now = do
    locktime_ok ← check_locktime tx.nlocktime
    if locktime_ok
        then (do
          r ← attempt (broadcast_transaction tx.tx_hex)
          after_broadcast tx r
          pure ((tx.id, r) ∷ []))
        else (do note_miss tx now; pure [])

  -- The loop of `broadcast_due_transactions`: it stops when safe mode is on or a row is tampered.
  unfoldable pub broadcast_all : List BroadcastTx → ℕ → Manager Outcomes
  broadcast_all [] now = pure []
  broadcast_all (tx ∷ txs) now =
      let go_on : Manager Outcomes = (do
        first ← broadcast_one tx now
        rest ← broadcast_all txs now
        pure (first ++ rest)) in
      do
        safe ← gets (λ s. s.safe_mode)
        if safe
            then pure []
            else if is_tampered tx
            then (do modify (enter_safe_mode tx.id); pure [])
            else go_on

  abbrev pub holds : Result Bool → Bool
  holds (ok b) = b
  holds (err _) = false

  unfoldable pub filter_due : List BroadcastTx → ℕ → Manager (List BroadcastTx)
  filter_due [] now = pure []
  filter_due (tx ∷ txs) now = do
    due ← attempt (is_tx_due_for_broadcast tx now)
    rest ← filter_due txs now
    pure (if holds due then tx ∷ rest else rest)

  unfoldable pub broadcast_due_transactions : Manager Outcomes
  broadcast_due_transactions = do
    safe ← gets (λ s. s.safe_mode)
    if safe then pure [] else do
      network ← gets (λ s. s.config.network)
      now ← ask b.now
      candidates ← on_db (get_due_transactions now network)
      due ← filter_due candidates now
      broadcast_all due now
