-- ===== src/Pool/Sends/Gate.antt =====
-- The nLockTime gate of src/pool/manager.rs: on which answers of the backends a row goes out.
use broadcast_pool.Prelude.{
  ℕ, ◌+◌, ◌≤◌, ◌<◌, Bool, true, false, ◌≡◌, ◌≢◌, refl, Option, none, some, arith, ok, err, Result,
  ◌⊎◌, inl, inr, ltb, leb, Bool-cases, continue, pure,
}
use broadcast_pool.Platform.{Platform}
use broadcast_pool.Models.{BroadcastTx}
use broadcast_pool.Pool.{Backends, PoolManager}
use broadcast_pool.Pool.Health.{
  check_block_height, get_median_time_past, get_median_time_past_cached, fresh_mtp,
  note_indexer_failure, note_indexer_success, write_chain_health,
}
use broadcast_pool.Pool.Due.{is_locktime_satisfied, locktime_threshold, reached}
use broadcast_pool.Pool.Broadcast.{check_locktime, broadcast_one}
use broadcast_pool.Pool.Quiet.{is_locktime_satisfied-Same}
use broadcast_pool.Pool.Sends.{sent-note_miss}

gate-cases : (r : Result Bool) → (r ≡ ok true) ⊎ (r ≢ ok true)
gate-cases (ok true) = inl refl
gate-cases (ok false) = inr (λ e. cc)
gate-cases (err _) = inr (λ e. cc)

module _ ⦃p : Platform⦄ ⦃b : Backends⦄ where
  -- A row is handed to a backend only if the gate answered that its lock is reached.
  broadcast_one-gated :
      (tx : BroadcastTx) (now : ℕ) (s : PoolManager)
      → (is_locktime_satisfied tx.nlocktime s).0 ≢ ok true
      → (broadcast_one tx now s).1.sent ≡ s.sent
  unfolding broadcast_one check_locktime
  broadcast_one-gated tx now s h = ground (
    arith,
    (is_locktime_satisfied-Same tx.nlocktime s).sent,
    sent-note_miss tx now (is_locktime_satisfied tx.nlocktime s).1,
  )

module _ ⦃b : Backends⦄ (s : PoolManager) where
  -- A backend answered that the chain has this height.
  abbrev pub HeightReported : ℕ → Type 0
  HeightReported h =
      (b.indexer_height s.calls ≡ ok h)
      ⊎ ((b.rpc_height s.calls ≡ ok h) ⊎ (b.rpc_height (s.calls + 1) ≡ ok h))

  -- This median time is in the cache and younger than 30 seconds, or a backend answered it.
  abbrev pub MtpReported : ℕ → Type 0
  MtpReported m =
      (fresh_mtp (b.now s.calls) s.mtp_cache ≡ some m)
      ⊎ ((b.rpc_mtp (s.calls + 1) ≡ ok m)
          ⊎ ((b.indexer_mtp (s.calls + 1) ≡ ok m) ⊎ (b.indexer_mtp (s.calls + 1 + 1) ≡ ok m)))

  check_block_height-HeightReported :
      (h : ℕ) → (check_block_height s).0 ≡ ok (some h) → HeightReported h
  unfolding check_block_height note_indexer_failure note_indexer_success write_chain_health
  check_block_height-HeightReported h e = ground arith

  mtp-MtpReported : (m : ℕ) → (get_median_time_past_cached s).0 ≡ ok m → MtpReported m
  unfolding get_median_time_past_cached get_median_time_past
  mtp-MtpReported m e = ground arith

  -- What a lock of `n` calls for: a block height at or below the threshold, a time above it.
  pub data Reached (n : ℕ) : Type 0 where
    by_height : (h : ℕ) → n ≤ locktime_threshold → HeightReported h → n ≤ h → Reached n
    by_time : (m : ℕ) → locktime_threshold < n → MtpReported m → n ≤ m → Reached n

  mtp_read :
      (n : ℕ) (r : Result ℕ) (t : PoolManager)
      → (continue r (λ mtp. pure (leb n mtp)) t).0 ≡ ok true
      → (m : ℕ) × (r ≡ ok m) × (n ≤ m)
  mtp_read n (ok m) t e = (m, refl, ground arith)
  mtp_read n (err _) t e = cc

  height_read :
      (n : ℕ) (r : Result (Option ℕ)) (t : PoolManager)
      → (continue r (λ height. pure (reached n height)) t).0 ≡ ok true
      → (h : ℕ) × (r ≡ ok (some h)) × (n ≤ h)
  height_read n (ok (some h)) t e = (h, refl, ground arith)
  height_read n (ok none) t e = cc
  height_read n (err _) t e = cc

  -- The gate passes a lock of `n` only on an answer that reaches it.
  is_locktime_satisfied-Reached :
      (n : ℕ) → 0 < n → (is_locktime_satisfied (some n) s).0 ≡ ok true → Reached n
  unfolding is_locktime_satisfied
  is_locktime_satisfied-Reached n pos e = elim (Bool-cases (ltb locktime_threshold n)) [
    | inl time ↦
        let r = get_median_time_past_cached s in
        let (m, reported, enough) = mtp_read n r.0 r.1 (ground arith) in
        by_time m (ground arith) (mtp-MtpReported m reported) enough
    | inr height ↦
        let r = check_block_height s in
        let (h, reported, enough) = height_read n r.0 r.1 (ground arith) in
        by_height h (ground arith) (check_block_height-HeightReported h reported) enough
  ]

  -- A transaction with an nLockTime is handed to a backend by a round of the loop only when the chain
  -- has reached the lock by an answer of a backend, or by a cached median time past that is younger
  -- than 30 seconds; otherwise nothing is sent.
  pub broadcast_one-Reached :
      ⦃p : Platform⦄ (tx : BroadcastTx) (now n : ℕ)
      → tx.nlocktime ≡ some n
      → 0 < n
      → Reached n ⊎ ((broadcast_one tx now s).1.sent ≡ s.sent)
  broadcast_one-Reached tx now n locked pos =
      elim (gate-cases (is_locktime_satisfied tx.nlocktime s).0) [
        | inl yes_ ↦ inl (is_locktime_satisfied-Reached n pos (rw locked at yes_))
        | inr no_ ↦ inr (broadcast_one-gated tx now s no_)
      ]
