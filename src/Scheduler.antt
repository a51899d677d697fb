-- ===== src/Scheduler.antt =====
-- src/pool/scheduler.rs: the loop that runs the scheduler's tick. Sleeping until the next check is not
-- modelled; a wait for want of a chain source is, in seconds.
pub mod Laundered
pub mod Monitors
pub mod Waits
use broadcast_pool.Prelude.{
  ℕ, ◌*◌, min, String, Bool, true, false, List, [], ◌∷◌, ◌++◌, if◌then◌else◌, Result, ok, err,
  codes, contains,
}
use broadcast_pool.Platform.{Platform}
use broadcast_pool.Pool.{Backends, PoolManager}
use broadcast_pool.Pool.Broadcast.{no_chain_source}
use broadcast_pool.Pool.Tick.{run_scheduler_tick}

-- `waits` is a ghost field: the waits for want of a chain source, oldest first.
pub record BroadcastLoop : Type 0 where
  pub manager : PoolManager
  pub backoff : ℕ
  pub waits : List ℕ

abbrev pub max_backoff : ℕ
max_backoff = 60

abbrev pub started : PoolManager → BroadcastLoop
started s = record { manager = s; backoff = 1; waits = [] }

unfoldable pub after_tick : {A : Type 0} → Result A → BroadcastLoop → BroadcastLoop
unfolding contains
after_tick (ok outcomes) l = record l { backoff = 1 }
after_tick (err e) l =
    if contains (codes no_chain_source) (codes e)
    then record l { backoff = min (l.backoff * 2) max_backoff; waits = l.waits ++ l.backoff ∷ [] }
    else l

module _ ⦃p : Platform⦄ ⦃b : Backends⦄ where
  -- One round: in safe mode nothing is done. `joined` is whether the task of the tick ends without a
  -- panic; a panic is logged only.
  unfoldable pub broadcast_round : Bool → BroadcastLoop → BroadcastLoop
  unfolding run_scheduler_tick after_tick
  broadcast_round joined l =
      let (r, s) = run_scheduler_tick l.manager in
      if l.manager.safe_mode
      then l
      else if joined
      then after_tick r (record l { manager = s })
      else record l { manager = s }

  unfoldable pub run_broadcast_loop : List Bool → BroadcastLoop → BroadcastLoop
  unfolding broadcast_round
  run_broadcast_loop [] l = l
  run_broadcast_loop (joined ∷ rounds) l = run_broadcast_loop rounds (broadcast_round joined l)
