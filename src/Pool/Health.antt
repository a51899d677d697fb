-- ===== src/Pool/Health.antt =====
-- Where the chain clock is read from: src/pool/chain_health.rs, and the probes of src/pool/manager.rs.
use broadcast_pool.Prelude.{
  ℕ, ◌+◌, ◌-◌, ◌*◌, String, Bool, true, false, not, ◌&&◌, ◌||◌, ltb, leb, Option, none, some,
  if◌then◌else◌, Result, ok, err, ◌>>=◌, ◌>>◌, pure, bail, gets, modify, is_some, is_none, or_else,
}
use broadcast_pool.Models.{second}
use broadcast_pool.Pool.{
  ChainSource, ChainHealth, Backends, PoolManager, Manager, ask, indexer, bitcoin_core, no_source,
}

unfoldable pub decide_chain_source : Bool → Bool → Bool → ChainSource
decide_chain_source indexer_up core_up core_ibd =
    if indexer_up then indexer else if core_up && not core_ibd then bitcoin_core else no_source

unfoldable pub clock_available : ChainHealth → Bool
clock_available h = elim h.source [ no_source ↦ false | _ ↦ true ]

unfoldable pub should_try_indexer : ChainHealth → Bool
should_try_indexer h = h.indexer_up || not h.polled

-- The source is decided anew after every write.
unfoldable pub write_chain_health : (ChainHealth → ChainHealth) → PoolManager → PoolManager
write_chain_health f s =
    let h = f s.chain_health in
    record s {
      chain_health = record h { source = decide_chain_source h.indexer_up h.core_up h.core_ibd };
    }

unfoldable pub note_indexer_failure : PoolManager → PoolManager
note_indexer_failure = write_chain_health (λ h. record h { indexer_up = false; polled = true })

unfoldable pub note_indexer_success : ℕ → PoolManager → PoolManager
note_indexer_success height =
    write_chain_health (λ h. record h { indexer_up = true; polled = true; height = some height })

abbrev to_option : {A : Type 0} → Result A → Option A
to_option (ok a) = some a
to_option (err _) = none

-- A saved copy of the configuration is not modelled.
should_disarm : Bool → ℕ → ℕ → Bool
should_disarm enabled armed_at_height real_height =
    enabled && leb (armed_at_height + 10) real_height

unfoldable pub maybe_disarm_virtual_block : PoolManager → PoolManager
unfolding should_disarm
maybe_disarm_virtual_block s = elim s.chain_health.height [
  | none ↦ s
  | some real_height ↦
      let vb = s.config.liana_virtual_block in
      if should_disarm vb.enabled vb.armed_at_height real_height
      then record s {
        config = record s.config { liana_virtual_block = record vb { enabled = false } };
      }
      else s
]

module _ ⦃b : Backends⦄ where
  -- `None` when there is no such backend or it fails.
  abbrev probe : {A : Type 0} → (ℕ → Bool) → (ℕ → Result A) → Manager (Option A)
  probe present f = do
    here ← gets (λ s. present s.calls)
    if here then (do r ← ask f; pure (to_option r)) else pure none

  abbrev ask_software : Bool → Manager (Option String)
  ask_software wanted = if wanted then ask b.indexer_software else pure none

  abbrev core_of : Option (ℕ × ℕ × Bool × ℕ) → ChainHealth → ChainHealth
  core_of none h = record h { core_up = false; core_ibd = false; core_sync_pct = none }
  core_of (some (height, mtp, ibd, pct)) h = record h {
    core_up = true;
    core_ibd = ibd;
    core_sync_pct = some pct;
    mtp = some mtp;
  }

  abbrev core_height : Option (ℕ × ℕ × Bool × ℕ) → Option ℕ
  core_height none = none
  core_height (some (height, _, _, _)) = some height

  abbrev warm_mtp : Option (ℕ × ℕ × Bool × ℕ) → ℕ → PoolManager → PoolManager
  warm_mtp none now s = s
  warm_mtp (some (_, mtp, _, _)) now s = record s { mtp_cache = some (now, mtp) }

  -- One probe of both backends. Concurrent calls, which the code turns away, are not modelled.
  unfoldable pub refresh_chain_health : Manager (Unit {0})
  refresh_chain_health = do
    core ← probe (λ _. b.has_rpc) b.rpc_status
    indexer_height ← probe b.has_indexer b.indexer_height
    known ← gets (λ s. s.chain_health.indexer_software)
    software ← ask_software (is_some indexer_height && is_none known)
    modify (
        write_chain_health (λ h. record (core_of core h) {
          indexer_up = is_some indexer_height;
          indexer_software = or_else software h.indexer_software;
          height = or_else indexer_height (core_height core);
          polled = true;
        }))
    now ← ask b.now
    modify (warm_mtp core now)
    modify maybe_disarm_virtual_block

  abbrev rpc_block_height : Manager (Option ℕ)
  rpc_block_height = if b.has_rpc then (do r ← ask b.rpc_height; pure (to_option r)) else pure none

  abbrev heard_height : Result ℕ → Manager (Option ℕ)
  heard_height (ok height) = do modify (note_indexer_success height); pure (some height)
  heard_height (err _) = do modify note_indexer_failure; rpc_block_height

  unfoldable pub check_block_height : Manager (Option ℕ)
  check_block_height = do
    use_indexer ← gets (λ s. should_try_indexer s.chain_health && b.has_indexer s.calls)
    if use_indexer then (do r ← ask b.indexer_height; heard_height r) else rpc_block_height

  abbrev heard_mtp : Result ℕ → Manager ℕ
  heard_mtp (ok mtp) = pure mtp
  heard_mtp (err _) = do
    modify note_indexer_failure
    bail "No backend available to read median time past"

  abbrev indexer_median_time : Manager ℕ
  indexer_median_time = do
    use_indexer ← gets (λ s. should_try_indexer s.chain_health && b.has_indexer s.calls)
    if use_indexer
        then (do r ← ask b.indexer_mtp; heard_mtp r)
        else bail "No backend available to read median time past"

  abbrev or_indexer : Result ℕ → Manager ℕ
  or_indexer (ok mtp) = pure mtp
  or_indexer (err _) = indexer_median_time

  unfoldable pub get_median_time_past : Manager ℕ
  get_median_time_past =
      if b.has_rpc then (do r ← ask b.rpc_mtp; or_indexer r) else indexer_median_time

  -- The cached value while it is younger than 30 seconds.
  abbrev pub fresh_mtp : ℕ → Option (ℕ × ℕ) → Option ℕ
  fresh_mtp now none = none
  fresh_mtp now (some (fetched_at, mtp)) =
      if ltb (now - fetched_at) (30 * second) then some mtp else none

  abbrev fetch_mtp : Manager ℕ
  fetch_mtp = do
    mtp ← get_median_time_past
    now ← ask b.now
    modify (λ s. record s { mtp_cache = some (now, mtp) })
    pure mtp

  unfoldable pub get_median_time_past_cached : Manager ℕ
  get_median_time_past_cached = do
    now ← ask b.now
    cached ← gets (λ s. fresh_mtp now s.mtp_cache)
    elim cached [ some mtp ↦ pure mtp | none ↦ fetch_mtp ]
