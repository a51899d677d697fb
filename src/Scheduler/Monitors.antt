-- ===== src/Scheduler/Monitors.antt =====
-- src/pool/scheduler.rs: one round of each of the other loops. A round's error is logged only; the sleep
-- after it is not modelled.
use broadcast_pool.Prelude.{
  ℕ, ◌*◌, ◌-◌, unwrap_or, modify, String, Bool, not, ◌&&◌, ltb, leb, Option, none, some, List, [],
  ◌∷◌, if◌then◌else◌, Result, ok, err, ◌>>=◌, ◌>>◌, pure, gets, attempt, is_some_and,
}
use broadcast_pool.Platform.{Platform}
use broadcast_pool.Models.{BroadcastTx, second}
use broadcast_pool.Transactions.{Transaction, Codec}
use broadcast_pool.Db.Read.{get_pending_by_block_height, column_is}
use broadcast_pool.Pool.{Backends, PoolManager, Manager, on_db, ask}
use broadcast_pool.Pool.Health.{refresh_chain_health, clock_available, check_block_height}
use broadcast_pool.Pool.Broadcast.{Outcomes}
use broadcast_pool.Pool.Tick.{mark_as_due, rebroadcast_pending}
use broadcast_pool.Pool.Confirm.{Confirmation, check_confirmations}
use broadcast_pool.Pool.Schedule.{check_price_triggers}
use broadcast_pool.Db.Archive.{Fresh, archive_terminal_older_than}
use broadcast_pool.ArchiveKey
use broadcast_pool.ArchiveKey.{ArchiveKeyStore}
use broadcast_pool.Json.{Serde}
use broadcast_pool.Electrum.Headers.{refresh_chain_tip_cache}
use broadcast_pool.PriceFeed.{PriceFeed, PriceSnapshot, Answers, fetch_snapshot}

-- Whether the monitor takes a transaction for one whose height has come.
unfoldable pub height_reached : ℕ → BroadcastTx → Bool
height_reached height tx =
    column_is tx.broadcast_mode "by_block"
    && is_some_and tx.nlocktime (λ n. ltb 0 n && ltb n 500_000_000 && leb n height)

module _ ⦃p : Platform⦄ ⦃b : Backends⦄ where
  -- An error of `mark_as_due` is logged only.
  unfoldable pub mark_reached : ℕ → List BroadcastTx → Manager (Unit {0})
  unfolding height_reached
  mark_reached height [] = pure tt
  mark_reached height (tx ∷ txs) =
      let rest = mark_reached height txs in
      if height_reached height tx then (do attempt (mark_as_due tx.id); rest) else rest

  abbrev pub at_height : String → Option ℕ → Manager (Unit {0})
  at_height network none = pure tt
  at_height network (some height) = do
    now ← ask b.now
    txs ← on_db (get_pending_by_block_height now network)
    mark_reached height txs

  unfoldable pub block_height_round : Manager (Unit {0})
  unfolding mark_reached
  block_height_round = do
    network ← gets (λ s. s.config.network)
    available ← gets (λ s. clock_available s.chain_health)
    if not available then pure tt else (do height ← check_block_height; at_height network height)

  unfoldable pub rebroadcast_round : Manager Outcomes
  unfolding rebroadcast_pending
  rebroadcast_round = do
    available ← gets (λ s. clock_available s.chain_health)
    if not available then pure [] else rebroadcast_pending

  unfoldable pub confirmation_round :
      ⦃c : Codec⦄ → (String → Option Transaction) → Manager (List Confirmation)
  unfolding check_confirmations
  confirmation_round fetch = do
    available ← gets (λ s. clock_available s.chain_health)
    if not available then pure [] else check_confirmations fetch

  abbrev pub evaluated : Result PriceSnapshot → Manager ℕ
  evaluated (err e) s = (err e, s)
  evaluated (ok snapshot) s =
      if snapshot.stale then (ok 0, s) else check_price_triggers snapshot.prices s

  -- `now` and `done` are the times at which the fetch starts and ends.
  unfoldable pub price_round :
      ℕ → ℕ → Answers → PriceFeed × PoolManager → Result ℕ × (PriceFeed × PoolManager)
  unfolding check_price_triggers
  price_round now done answers (feed, s) =
      let (snapshot, feed') = fetch_snapshot now done answers feed in
      let (marked, s') = evaluated snapshot s in (marked, (feed', s'))

  -- `answer` is the indexer's answer to the question for its tip.
  unfoldable pub health_round : ⦃j : Serde⦄ → Option String → Manager (Unit {0})
  unfolding refresh_chain_health refresh_chain_tip_cache
  health_round answer = do
    refresh_chain_health
    indexer_url ← gets (λ s. unwrap_or s.config.indexer_url "")
    modify (refresh_chain_tip_cache indexer_url answer)

  abbrev pub day : ℕ
  day = 86_400 * second

  abbrev pub swept : Fresh → ℕ → Option (List ℕ) → Manager (Option ℕ)
  swept fresh now none = pure none
  swept fresh now (some key) = do
    network ← gets (λ s. s.config.network)
    expiry_days ← gets (λ s. s.config.expiry_days)
    moved ←
        on_db
          (archive_terminal_older_than fresh key now network (p.rfc3339 (now - expiry_days * day)))
    pure (some moved)

  -- `none` while the archive is locked. `instant` is the time of the monotonic clock, `now` the one of
  -- the calendar; a cutoff before 1970 is not modelled.
  unfoldable pub retention_round :
      Fresh
      → ℕ
      → ℕ
      → ArchiveKeyStore × PoolManager
      → Result (Option ℕ) × (ArchiveKeyStore × PoolManager)
  unfolding archive_terminal_older_than
  retention_round fresh instant now (keys, s) =
      let (opened, keys') = ArchiveKey.key instant keys in
      let (moved, s') = swept fresh now opened s in (moved, (keys', s'))
