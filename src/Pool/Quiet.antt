-- ===== src/Pool/Quiet.antt =====
-- What the probes of src/pool/manager.rs leave alone: the database, the halt, and what was sent.
use broadcast_pool.Prelude.{ℕ, ◌+◌, ◌≡◌, refl, ◌∙◌, Option, arith}
use broadcast_pool.Pool.{Backends, PoolManager}
use broadcast_pool.Pool.Health.{
  check_block_height, get_median_time_past, get_median_time_past_cached, note_indexer_failure,
  note_indexer_success, write_chain_health,
}
use broadcast_pool.Pool.Due.{is_locktime_satisfied}

-- The parts of the state that only the operations of the pool itself change.
pub record Same (s t : PoolManager) : Type 0 where
  pub db : t.db ≡ s.db
  pub safe_mode : t.safe_mode ≡ s.safe_mode
  pub tampered_ids : t.tampered_ids ≡ s.tampered_ids
  pub sent : t.sent ≡ s.sent
  pub config : t.config ≡ s.config
  pub pending_txs : t.pending_txs ≡ s.pending_txs
  pub broadcast_notifications : t.broadcast_notifications ≡ s.broadcast_notifications

pub Same-refl : (s : PoolManager) → Same s s
Same-refl s = record {
  db = refl;
  safe_mode = refl;
  tampered_ids = refl;
  sent = refl;
  config = refl;
  pending_txs = refl;
  broadcast_notifications = refl;
}

pub Same-trans : {s t u : PoolManager} → Same s t → Same t u → Same s u
Same-trans h k = record {
  db = k.db ∙ h.db;
  safe_mode = k.safe_mode ∙ h.safe_mode;
  tampered_ids = k.tampered_ids ∙ h.tampered_ids;
  sent = k.sent ∙ h.sent;
  config = k.config ∙ h.config;
  pending_txs = k.pending_txs ∙ h.pending_txs;
  broadcast_notifications = k.broadcast_notifications ∙ h.broadcast_notifications;
}

module _ ⦃b : Backends⦄ where
  pub check_block_height-Same : (s : PoolManager) → Same s (check_block_height s).1
  unfolding check_block_height note_indexer_failure note_indexer_success write_chain_health
  check_block_height-Same s = ground arith

  get_median_time_past-Same : (s : PoolManager) → Same s (get_median_time_past s).1
  unfolding get_median_time_past note_indexer_failure write_chain_health
  get_median_time_past-Same s = ground arith

  pub get_median_time_past_cached-Same :
      (s : PoolManager) → Same s (get_median_time_past_cached s).1
  unfolding get_median_time_past_cached
  get_median_time_past_cached-Same s =
      ground (arith, get_median_time_past-Same (record s { calls = s.calls + 1 }))

  pub is_locktime_satisfied-Same :
      (n : Option ℕ) (s : PoolManager) → Same s (is_locktime_satisfied n s).1
  unfolding is_locktime_satisfied
  is_locktime_satisfied-Same n s =
      ground (arith, get_median_time_past_cached-Same s, check_block_height-Same s)
