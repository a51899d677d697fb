-- ===== src/Pool/Sends.antt =====
-- What `broadcast_due_transactions` of src/pool/manager.rs hands to a backend.
pub mod Eligible
pub mod Gate
pub mod Settles
pub mod Halts
pub mod Rebroadcast
use broadcast_pool.Prelude.{
  ℕ, ◌+◌, String, Bool, true, false, not, ◌&&◌, ◌≡◌, ◌≢◌, refl, sym, ap, subst, ◌∙◌, Option, none,
  some, List, [], ◌∷◌, ◌++◌, map, select, arith, ok, err, Result, ◌>>=◌, pure, after-bind,
  Bool-cases, inl, inr, ◌⊎◌, All, All-append, All-mono, All-select, str_eq, str_eq_iff,
  if◌then◌else◌,
}
use broadcast_pool.Platform.{Platform}
use broadcast_pool.Models.{BroadcastTx}
use broadcast_pool.Db.{Row, Database, map_broadcast_row, decode_or_keep}
use broadcast_pool.Db.Read.{get_due_transactions}
use broadcast_pool.Db.Seal.{IsSealed, tampered-map_broadcast_row}
use broadcast_pool.Pool.{Backends, PoolManager, Manager}
use broadcast_pool.Pool.Safe.{enter_safe_mode}
use broadcast_pool.Pool.Mempool.{remove_pending_tx}
use broadcast_pool.Pool.Due.{is_locktime_satisfied, is_tx_due_for_broadcast, time_reached}
use broadcast_pool.Pool.Broadcast.{
  Outcomes, is_tampered, broadcast_transaction, check_locktime, mark_broadcast, announce,
  record_broadcast, note_miss, record_first_miss, after_broadcast, broadcast_one, broadcast_all,
  filter_due, broadcast_due_transactions,
}
use broadcast_pool.Pool.Quiet.{Same, get_median_time_past_cached-Same, is_locktime_satisfied-Same}

-- The list grew by at most two copies of one transaction: one for each backend.
abbrev Sent : String → List String → List String → Type 0
Sent hex before after =
    (after ≡ before) ⊎ ((after ≡ before ++ hex ∷ []) ⊎ (after ≡ (before ++ hex ∷ []) ++ hex ∷ []))

All-Sent :
    (P : String → Type 0) (hex : String) (before after : List String)
    → Sent hex before after
    → P hex
    → All P before
    → All P after
All-Sent P hex before after (inl e) h k = subst (All P) (sym e) k
All-Sent P hex before after (inr (inl e)) h k =
    subst (All P) (sym e) (All-append P before (hex ∷ []) k (h, tt))
All-Sent P hex before after (inr (inr e)) h k = subst (All P) (sym e) (
    All-append P (before ++ hex ∷ []) (hex ∷ []) (All-append P before (hex ∷ []) k (h, tt)) (h, tt))

module _ ⦃b : Backends⦄ where
  pub broadcast_transaction-Sent :
      (hex : String) (s : PoolManager) → Sent hex s.sent (broadcast_transaction hex s).1.sent
  unfolding broadcast_transaction
  broadcast_transaction-Sent hex s = ground arith

  pub check_locktime-Same : (n : Option ℕ) (s : PoolManager) → Same s (check_locktime n s).1
  unfolding check_locktime
  check_locktime-Same n s = ground (arith, is_locktime_satisfied-Same n s)

  pub is_tx_due-Same :
      (tx : BroadcastTx) (now : ℕ) (s : PoolManager) → Same s (is_tx_due_for_broadcast tx now s).1
  unfolding is_tx_due_for_broadcast
  is_tx_due-Same tx now s = ground (arith, is_locktime_satisfied-Same tx.nlocktime s)

module _ ⦃p : Platform⦄ ⦃b : Backends⦄ where
  sent-record_broadcast :
      (tx : BroadcastTx) (txid : String) (s : PoolManager)
      → (record_broadcast tx txid s).1.sent ≡ s.sent
  unfolding record_broadcast mark_broadcast announce remove_pending_tx
  sent-record_broadcast tx txid s = ground arith

  sent-record_first_miss :
      (tx : BroadcastTx) (now : ℕ) (s : PoolManager) → (record_first_miss tx now s).1.sent ≡ s.sent
  unfolding record_first_miss
  sent-record_first_miss tx now s = ground arith

  sent-note_miss :
      (tx : BroadcastTx) (now : ℕ) (s : PoolManager) → (note_miss tx now s).1.sent ≡ s.sent
  unfolding note_miss
  sent-note_miss tx now s = ground (
    arith,
    sent-record_first_miss tx now s,
    (get_median_time_past_cached-Same (record_first_miss tx now s).1).sent,
  )

  sent-after_broadcast :
      (tx : BroadcastTx) (r : Result String) (s : PoolManager)
      → (after_broadcast tx r s).1.sent ≡ s.sent
  unfolding after_broadcast
  sent-after_broadcast tx r s = elim r as (λ x. (after_broadcast tx x s).1.sent ≡ s.sent) [
    | ok txid ↦ sent-record_broadcast tx txid s
    | err e ↦ ground arith
  ]

  broadcast_one-Sent :
      (tx : BroadcastTx) (now : ℕ) (s : PoolManager)
      → Sent tx.tx_hex s.sent (broadcast_one tx now s).1.sent
  unfolding broadcast_one
  broadcast_one-Sent tx now s =
      let c = (check_locktime tx.nlocktime s).1 in
      let t = broadcast_transaction tx.tx_hex c in
      ground (
        arith,
        (check_locktime-Same tx.nlocktime s).sent,
        sent-note_miss tx now c,
        broadcast_transaction-Sent tx.tx_hex c,
        sent-after_broadcast tx t.0 t.1,
      )

-- The rows before the first tampered one.
abbrev pub until_tampered : List BroadcastTx → List BroadcastTx
until_tampered [] = []
until_tampered (tx ∷ txs) = if is_tampered tx then [] else tx ∷ until_tampered txs

module _ ⦃p : Platform⦄ ⦃b : Backends⦄ where
  pub broadcast_all-step :
      (tx : BroadcastTx) (txs : List BroadcastTx) (now : ℕ) (s : PoolManager)
      → s.safe_mode ≡ false
      → is_tampered tx ≡ false
      → broadcast_all (tx ∷ txs) now s
        ≡ (broadcast_one tx now >>= λ first. broadcast_all txs now >>= λ rest. pure (first ++ rest))
            s
  unfolding broadcast_all
  broadcast_all-step tx txs now s active good = simp (active, good)

  -- Whatever a round of the loop hands to a backend is a transaction of the batch that stands before
  -- the first tampered row.
  pub broadcast_all-sent :
      (P : String → Type 0) (txs : List BroadcastTx) (now : ℕ) (s : PoolManager)
      → All (λ tx. P tx.tx_hex) (until_tampered txs)
      → All P s.sent
      → All P (broadcast_all txs now s).1.sent
  unfolding broadcast_all enter_safe_mode
  broadcast_all-sent P [] now s h k = k
  broadcast_all-sent P (tx ∷ txs) now s h k = elim (Bool-cases s.safe_mode) [
    | inl safe ↦ simp safe k
    | inr active ↦ elim (Bool-cases (is_tampered tx)) [
      | inl bad ↦ simp (active, bad) k
      | inr good ↦
          let h' : P tx.tx_hex × All (λ tx. P tx.tx_hex) (until_tampered txs) = rw good at h in
          let t = (broadcast_one tx now s).1 in
          let k' : All P t.sent =
            All-Sent P tx.tx_hex s.sent t.sent (broadcast_one-Sent tx now s) h'.0 k in
          rw (broadcast_all-step tx txs now s active good) (
            after-bind (λ u. All P u.sent) (broadcast_one tx now) _ s k'
              (λ first.
                after-bind (λ u. All P u.sent) (broadcast_all txs now) _ t
                  (broadcast_all-sent P txs now t h'.1 k')
                  (λ rest. broadcast_all-sent P txs now t h'.1 k')))
    ]
  ]
