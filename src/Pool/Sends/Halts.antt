-- ===== src/Pool/Sends/Halts.antt =====
-- The halt of src/pool/manager.rs: a tampered row stops all that follows.
use broadcast_pool.Prelude.{
  ℕ, String, Bool, true, false, ◌||◌, ◌++◌, ◌≡◌, refl, ◌∙◌, List, [], ◌∷◌, arith, Result, ok, err,
  inl, inr, Bool-cases, ◌>>=◌, pure, continue,
}
use broadcast_pool.Platform.{Platform}
use broadcast_pool.Models.{BroadcastTx}
use broadcast_pool.Pool.{Backends, PoolManager, Manager}
use broadcast_pool.Pool.Safe.{enter_safe_mode}
use broadcast_pool.Pool.Mempool.{remove_pending_tx}
use broadcast_pool.Pool.Quiet.{get_median_time_past_cached-Same}
use broadcast_pool.Pool.Sends.{check_locktime-Same, broadcast_all-step}
use broadcast_pool.Pool.Broadcast.{
  Outcomes, is_tampered, broadcast_transaction, mark_broadcast, announce, record_broadcast,
  record_first_miss, note_miss, check_locktime, after_broadcast, broadcast_one, broadcast_all,
  broadcast_due_transactions, broadcast_now,
}
use broadcast_pool.Pool.Tick.{run_scheduler_tick}

module _ ⦃p : Platform⦄ ⦃b : Backends⦄ where
  safe-broadcast_transaction :
      (hex : String) (s : PoolManager) → (broadcast_transaction hex s).1.safe_mode ≡ s.safe_mode
  unfolding broadcast_transaction
  safe-broadcast_transaction hex s = ground arith

  safe-record_broadcast :
      (tx : BroadcastTx) (txid : String) (s : PoolManager)
      → (record_broadcast tx txid s).1.safe_mode ≡ s.safe_mode
  unfolding record_broadcast mark_broadcast announce remove_pending_tx
  safe-record_broadcast tx txid s = ground arith

  safe-record_first_miss :
      (tx : BroadcastTx) (now : ℕ) (s : PoolManager)
      → (record_first_miss tx now s).1.safe_mode ≡ s.safe_mode
  unfolding record_first_miss
  safe-record_first_miss tx now s = ground arith

  safe-note_miss :
      (tx : BroadcastTx) (now : ℕ) (s : PoolManager)
      → (note_miss tx now s).1.safe_mode ≡ s.safe_mode
  unfolding note_miss
  safe-note_miss tx now s = ground (
    arith,
    safe-record_first_miss tx now s,
    (get_median_time_past_cached-Same (record_first_miss tx now s).1).safe_mode,
  )

  safe-after_broadcast :
      (tx : BroadcastTx) (r : Result String) (s : PoolManager)
      → (after_broadcast tx r s).1.safe_mode ≡ s.safe_mode
  unfolding after_broadcast
  safe-after_broadcast tx r s =
      elim r as (λ x. (after_broadcast tx x s).1.safe_mode ≡ s.safe_mode) [
        | ok txid ↦ safe-record_broadcast tx txid s
        | err e ↦ ground arith
      ]

  safe-broadcast_one :
      (tx : BroadcastTx) (now : ℕ) (s : PoolManager)
      → (broadcast_one tx now s).1.safe_mode ≡ s.safe_mode
  unfolding broadcast_one
  safe-broadcast_one tx now s =
      let c = (check_locktime tx.nlocktime s).1 in
      let t = broadcast_transaction tx.tx_hex c in
      ground (
        arith,
        (check_locktime-Same tx.nlocktime s).safe_mode,
        safe-note_miss tx now c,
        safe-broadcast_transaction tx.tx_hex c,
        safe-after_broadcast tx t.0 t.1,
      )

  abbrev pub any_tampered : List BroadcastTx → Bool
  any_tampered [] = false
  any_tampered (tx ∷ txs) = is_tampered tx || any_tampered txs

  -- What follows the first row.
  abbrev after : List BroadcastTx → ℕ → Outcomes → Manager Outcomes
  after txs now first = do rest ← broadcast_all txs now; pure (first ++ rest)

  ran :
      (out : Outcomes) (r : Result Outcomes) (k : Outcomes → Manager Outcomes) (t : PoolManager)
      → (continue r k t).0 ≡ ok out
      → (first : Outcomes) × (r ≡ ok first)
  ran out (ok first) k t h = (first, refl)
  ran out (err _) k t h = cc

  ended :
      (first out : Outcomes) (r : Result Outcomes) (t : PoolManager)
      → (continue r (λ rest. pure (first ++ rest)) t).0 ≡ ok out
      → (rest : Outcomes) × (r ≡ ok rest) × ((continue r (λ rest. pure (first ++ rest)) t).1 ≡ t)
  ended first out (ok rest) t h = (rest, refl, refl)
  ended first out (err _) t h = cc

  -- Safe mode is on after the loop exactly when a row of the batch is tampered.
  broadcast_all-safe_mode :
      (txs : List BroadcastTx) (now : ℕ) (s : PoolManager) (out : Outcomes)
      → s.safe_mode ≡ false
      → (broadcast_all txs now s).0 ≡ ok out
      → (broadcast_all txs now s).1.safe_mode ≡ any_tampered txs
  unfolding broadcast_all enter_safe_mode
  broadcast_all-safe_mode [] now s out active h = active
  broadcast_all-safe_mode (tx ∷ txs) now s out active h = elim (Bool-cases (is_tampered tx)) [
    | inl bad ↦ simp (active, bad) refl
    | inr good ↦
        let one = broadcast_one tx now s in
        let all = broadcast_all txs now one.1 in
        let step = broadcast_all-step tx txs now s active good in
        let (first, begun) = ran out one.0 (after txs now) one.1 (rw step at h) in
        let (rest, going, ends) = ended first out all.0 all.1 (rw (step, begun) at h) in
        rw (step, good, begun, ends)
          (broadcast_all-safe_mode txs now one.1 rest (safe-broadcast_one tx now s ∙ active) going)
  ]

  halted :
      (id : String) (s : PoolManager)
      → s.safe_mode ≡ true
      → (run_scheduler_tick s ≡ (ok [], s))
        × ((broadcast_due_transactions s ≡ (ok [], s)) × ((broadcast_now id s).1 ≡ s))
  unfolding run_scheduler_tick broadcast_due_transactions broadcast_now
  halted id s safe = (ground arith, (ground arith, ground arith))

  -- After the loop has run over a batch with a tampered row to its end, without an error of its own, the
  -- scheduler's tick, a round over the due rows and a manual broadcast all leave the state as it is, so
  -- nothing is sent, and the first two report no outcome.
  pub broadcast_all-halts :
      (txs : List BroadcastTx) (now : ℕ) (s : PoolManager) (out : Outcomes) (id : String)
      → s.safe_mode ≡ false
      → (broadcast_all txs now s).0 ≡ ok out
      → any_tampered txs ≡ true
      → let t = (broadcast_all txs now s).1 in
        (run_scheduler_tick t ≡ (ok [], t))
        × ((broadcast_due_transactions t ≡ (ok [], t)) × ((broadcast_now id t).1 ≡ t))
  broadcast_all-halts txs now s out id active ends bad =
      halted id (broadcast_all txs now s).1
        (broadcast_all-safe_mode txs now s out active ends ∙ bad)
