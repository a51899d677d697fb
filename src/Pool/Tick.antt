-- ===== src/Pool/Tick.antt =====
-- What the scheduler and the rebroadcast loop run: src/pool/manager.rs, `run_scheduler_tick`, with the
-- requeueing of failures, and `rebroadcast_pending`. An interval of 2^31 minutes or more, which the code
-- casts to a negative number, is not modelled.
use broadcast_pool.Prelude.{
  ℕ, ◌+◌, String, Bool, not, ◌&&◌, ◌||◌, ltb, some, List, [], ◌∷◌, if◌then◌else◌, ok, err, ◌>>=◌,
  ◌>>◌, pure, bail, gets, modify, attempt, is_some_and, unwrap_or, codes, contains,
}
use broadcast_pool.Platform.{Platform}
use broadcast_pool.Models.{BroadcastTx}
use broadcast_pool.Db.Write
use broadcast_pool.Db.Write.{get_broadcast_tx_by_id, insert_broadcast_tx}
use broadcast_pool.Db.Read.{
  list_broadcast_txs, get_pending_by_scheduled_time, get_pending_rebroadcast, column_is,
}
use broadcast_pool.Pool.{Backends, Manager, on_db, ask}
use broadcast_pool.Pool.Safe.{enter_safe_mode}
use broadcast_pool.Pool.Health.{clock_available}
use broadcast_pool.Pool.Due.{is_user_scheduled_mode}
use broadcast_pool.Pool.Broadcast.{
  Outcomes, is_tampered, is_retriable_broadcast_error, no_chain_source, broadcast_transaction,
  broadcast_due_transactions,
}

module _ ⦃p : Platform⦄ ⦃b : Backends⦄ where
  abbrev retriable : BroadcastTx → Bool
  retriable tx =
      let e = unwrap_or tx.error_message "" in
      is_retriable_broadcast_error e
      || (is_some_and tx.nlocktime (λ n. ltb 0 n)
          && contains (codes "Failed to broadcast") (codes e))

  unfoldable pub requeue_all : List BroadcastTx → Manager ℕ
  requeue_all [] = pure 0
  requeue_all (tx ∷ txs) =
      let rest = requeue_all txs in
      if retriable tx
      then (do
        now ← ask b.now
        on_db (Write.reset_failed_to_scheduled now tx.id)
        count ← rest
        pure (count + 1))
      else rest

  unfoldable pub requeue_retriable_failures : Manager ℕ
  requeue_retriable_failures = do
    network ← gets (λ s. s.config.network)
    now ← ask b.now
    failed ← on_db (list_broadcast_txs now (some "failed") network 1000)
    requeue_all failed

  unfoldable pub mark_as_due : String → Manager (Unit {0})
  mark_as_due id = do now ← ask b.now; on_db (Write.mark_due now id)

  -- An error of `mark_as_due` is logged only.
  unfoldable pub mark_all_due : List BroadcastTx → Manager (Unit {0})
  mark_all_due [] = pure tt
  mark_all_due (tx ∷ txs) =
      let rest = mark_all_due txs in
      let go_on : Manager (Unit {0}) =
        if not (is_user_scheduled_mode tx.broadcast_mode || column_is tx.broadcast_mode "scheduled")
          || column_is tx.schedule_trigger "price"
        then rest
        else (do attempt (mark_as_due tx.id); rest) in
      do
        safe ← gets (λ s. s.safe_mode)
        if safe then pure tt else if is_tampered tx then modify (enter_safe_mode tx.id) else go_on

  unfoldable pub run_scheduler_tick : Manager Outcomes
  run_scheduler_tick = do
    safe ← gets (λ s. s.safe_mode)
    if safe then pure [] else do
      available ← gets (λ s. clock_available s.chain_health)
      if not available then bail no_chain_source else do
        network ← gets (λ s. s.config.network)
        now ← ask b.now
        pending ← on_db (get_pending_by_scheduled_time now network)
        mark_all_due pending
        attempt requeue_retriable_failures
        broadcast_due_transactions

  unfoldable pub rebroadcast_all : List BroadcastTx → Manager Outcomes
  rebroadcast_all [] = pure []
  rebroadcast_all (tx ∷ txs) = do
    r ← attempt (broadcast_transaction tx.tx_hex)
    (elim r [
      | ok _ ↦ (do
        now ← ask b.now
        on_db (
            Write.update_by_id tx.id (λ row. record row {
              broadcast_at = some (p.rfc3339 now);
              updated_at = p.rfc3339 now;
            })))
      | err _ ↦ pure tt
    ])
    rest ← rebroadcast_all txs
    pure ((tx.id, r) ∷ rest)

  unfoldable pub rebroadcast_pending : Manager Outcomes
  rebroadcast_pending = do
    interval ← gets (λ s. s.config.rebroadcast_interval_minutes)
    network ← gets (λ s. s.config.network)
    now ← ask b.now
    txs ← on_db (get_pending_rebroadcast now interval network)
    rebroadcast_all txs
