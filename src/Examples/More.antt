-- ===== src/Examples/More.antt =====
-- More of the properties at concrete inputs.
use broadcast_pool.Prelude.{
  leb, ◌||◌, ◌⊎◌, String, true, false, not, ◌≡◌, ◌≢◌, refl, sym, ◌∙◌, ap, none, some, List, [], ◌∷◌,
  ◌++◌, map, ok, arith, select, str_eq_iff, show_nat, str_eq, length,
}
use mathlib.Core.Option
use broadcast_pool.Models.{BroadcastTx, PoolStats}
use broadcast_pool.Models.{scheduled}
use broadcast_pool.Db.{
  Row, Database, find, expected_mac, row_mac_input, join, reseal_row_mac, update_where,
  map_broadcast_row,
}
use broadcast_pool.Crypto.{mac}
use broadcast_pool.Db.Write
use broadcast_pool.Db.Write.{insert_broadcast_tx, get_broadcast_tx_by_id}
use broadcast_pool.Db.Write.RoundTrip.{imported, insert_broadcast_tx-get}
use broadcast_pool.Db.Seal.{IsSealed}
use broadcast_pool.Db.Stats.{get_pool_stats}
use broadcast_pool.Db.Stats.Counts.{count, get_pool_stats-counts}
use broadcast_pool.Db.Archive.{archive_terminal_older_than}
use broadcast_pool.Db.Archive
use broadcast_pool.Db.Read.{get_pending_rebroadcast}
use broadcast_pool.Db.Archive.Moves.{retires, contents, archive_terminal_older_than-moves}
use broadcast_pool.Pool.{PoolManager}
use broadcast_pool.Pool.Mempool.{lookup, remove_pending_tx}
use broadcast_pool.Pool.Mempool.Refines.{
  Change, store, merge, remove, change_all, change_map_all, view, change_all-view,
}
use broadcast_pool.Pool.Health.{should_try_indexer}
use broadcast_pool.Pool.Due.{is_locktime_satisfied}
use broadcast_pool.Pool.Broadcast.{
  broadcast_one, broadcast_all, broadcast_transaction, check_locktime, after_broadcast,
  record_broadcast, mark_broadcast, announce, broadcast_due_transactions, broadcast_now,
}
use broadcast_pool.Pool.Tick.{rebroadcast_all, run_scheduler_tick, rebroadcast_pending}
use broadcast_pool.Pool.Sends.Settles.{standing, settled, broadcast_one-settles}
use broadcast_pool.Pool.Sends.Halts.{broadcast_all-halts}
use broadcast_pool.Pool.Sends.Rebroadcast.{halt_set, rebroadcast_pending-halt_set}
use broadcast_pool.Pool.Schedule.{schedule_transaction, schedule_at, before_locktime}
use broadcast_pool.Pool.Schedule.Outcome.{shown, schedule_at-outcome}
use broadcast_pool.Pool.Schedule.Unsealed.{rescheduled, schedule_transaction-tampered}
use broadcast_pool.Examples.Toy
use broadcast_pool.Examples.Toy.{count-letters, toy, toy-Decodes, hex, letters}
use broadcast_pool.Examples.World.{key, nonce, bare, seen, new_tx, db, steady, manager}

stats_example :
    let rs = select (λ r. str_eq r.network "main") db.pool in
    (s : PoolStats) × ((get_pool_stats "main" db ≡ (ok s, db))
      × ((s.total_transactions ≡ length rs)
          × ((s.pending ≡ count "pending" rs)
              × ((s.scheduled ≡ count "scheduled" rs)
                  × ((s.broadcast ≡ count "broadcast" rs)
                      × ((s.confirmed ≡ count "confirmed" rs) × (s.failed ≡ count "failed" rs)))))))
stats_example = get_pool_stats-counts "main" db

from_outside : Archive.Fresh
from_outside = record { uuid = letters; nonce = λ n. nonce; now = λ n. 9; json = λ tx. 1 ∷ 2 ∷ [] }

failed_row : Row
failed_row =
    let r = record (bare "f" "ff" 0) { status = "failed" } in
    record r { row_mac = some (expected_mac key r) }

old : Database
unfolding failed_row
old = record db { pool = failed_row ∷ [] }

retired : length (select (retires 9 "main" "111" old.key) old.pool) ≡ 1
unfolding old failed_row map_broadcast_row expected_mac hex mac row_mac_input join show_nat letters
retired = refl

archive_example :
    ((archive_terminal_older_than from_outside key 9 "main" "111" old).0
      ≡ ok (length (select (retires 9 "main" "111" old.key) old.pool)))
    × (((archive_terminal_older_than from_outside key 9 "main" "111" old).1.pool
          ≡ select (λ r. not (retires 9 "main" "111" old.key r)) old.pool)
        × (contents key (archive_terminal_older_than from_outside key 9 "main" "111" old).1.archive
            ≡ contents key old.archive
              ++ map
                  (λ r. ok (from_outside.json (map_broadcast_row 9 old.key r)))
                  (select (retires 9 "main" "111" old.key) old.pool)))
unfolding from_outside old
archive_example =
    archive_terminal_older_than-moves 9 "main" "111" toy-Decodes from_outside (λ n. refl) key old
      (tt, tt) (λ m n e. sym (count-letters m) ∙ ap Toy.count e ∙ count-letters n) (λ n. refl)

changes : List Change
changes =
    store "t" "aa" ("s" ∷ []) (record { output_index = 0; value = 5; scripthash = "s" } ∷ [])
    ∷ merge "t" ("r" ∷ "s" ∷ [])
    ∷ store "v" "bb" [] []
    ∷ remove "v"
    ∷ []

view_example : view (change_all changes manager) "t" ≡ change_map_all changes (view manager) "t"
view_example = change_all-view changes manager "t"

reports : (broadcast_one (seen "aa" false) 5 manager).0 ≡ ok (("a", ok "aa") ∷ [])
unfolding broadcast_one check_locktime is_locktime_satisfied broadcast_transaction after_broadcast
    record_broadcast mark_broadcast announce map_broadcast_row should_try_indexer
    Write.mark_broadcast reseal_row_mac find update_where remove_pending_tx lookup
reports = refl

settles_example :
    (Option.map standing (find "a" (broadcast_one (seen "aa" false) 5 manager).1.db.pool)
      ≡ Option.map (settled (ok "aa")) (Option.map standing (find "a" db.pool)))
    × (find "b" (broadcast_one (seen "aa" false) 5 manager).1.db.pool ≡ find "b" db.pool)
unfolding map_broadcast_row
settles_example = broadcast_one-settles (seen "aa" false) 5 (ok "aa") manager "b" reports refl

halting : (broadcast_all (seen "cc" true ∷ []) 5 manager).0 ≡ ok []
unfolding broadcast_all
halting = refl

halts_example :
    let t = (broadcast_all (seen "cc" true ∷ []) 5 manager).1 in
    (run_scheduler_tick t ≡ (ok [], t))
    × ((broadcast_due_transactions t ≡ (ok [], t)) × ((broadcast_now "a" t).1 ≡ t))
halts_example = broadcast_all-halts (seen "cc" true ∷ []) 5 manager [] "a" refl halting refl

-- A transaction that is broadcast, and in no block.
abbrev unmined : PoolManager
unmined = record manager {
  db = record db {
    pool = record (bare "m" "cc" 0) { status = "broadcast"; txid = some "cc" } ∷ [];
  };
}

resent : length (rebroadcast_pending unmined).1.sent ≡ 1
unfolding rebroadcast_pending get_pending_rebroadcast rebroadcast_all broadcast_transaction
    should_try_indexer
resent = refl

rebroadcast_example :
    rebroadcast_pending (record unmined { safe_mode = true })
    ≡ halt_set true (rebroadcast_pending unmined)
rebroadcast_example = rebroadcast_pending-halt_set true unmined

absent : find "n" db.pool ≡ none
unfolding find
absent = refl

insert_example :
    ((insert_broadcast_tx 3 "n" (λ i. nonce) none new_tx db).0 ≡ ok (imported 3 "n" none new_tx))
    × ((get_broadcast_tx_by_id 3 "n" (insert_broadcast_tx 3 "n" (λ i. nonce) none new_tx db).1).0
        ≡ ok (imported 3 "n" none new_tx))
insert_example =
    insert_broadcast_tx-get toy-Decodes (λ i. nonce) (λ i. refl) key 3 "n" none new_tx db refl
      absent (omega arith)

pending_row : Row
pending_row =
    let r = record (bare "p" "ee" 0) { status = "pending"; scheduled_time = none } in
    record r { row_mac = some (expected_mac key r) }

pending_pool : PoolManager
unfolding pending_row
pending_pool = record manager { db = record db { pool = pending_row ∷ [] } }

new_mac : String
unfolding pending_row pending_pool
new_mac = expected_mac key (
    rescheduled (λ lo hi. lo) (λ lo hi. lo) "p" (some 0) (some 0) none none none pending_pool
      pending_row)

distinct : str_eq new_mac (expected_mac key pending_row) ≡ false
unfolding new_mac expected_mac row_mac_input join mac pending_row pending_pool show_nat hex letters
distinct = refl

differs :
    expected_mac key (
      rescheduled
        (λ lo hi. lo)
        (λ lo hi. lo)
        "p"
        (some 0)
        (some 0)
        none
        none
        none
        pending_pool
        pending_row)
    ≢ expected_mac key pending_row
unfolding new_mac
differs e =
    absurd (ground (arith, distinct, (str_eq_iff new_mac (expected_mac key pending_row)).1 e))

here : find "p" pending_pool.db.pool ≡ some pending_row
unfolding find pending_row pending_pool
here = refl

is_sealed : IsSealed key pending_row
unfolding pending_row expected_mac
is_sealed = refl

schedule_example :
    (tx : BroadcastTx) × (((schedule_transaction
          (λ lo hi. lo)
          (λ lo hi. lo)
          "p"
          (some 0)
          (some 0)
          none
          none
          none
          pending_pool).0
        ≡ ok tx)
      × (tx.tampered ≡ some true))
unfolding pending_pool
schedule_example =
    schedule_transaction-tampered (λ lo hi. lo) (λ lo hi. lo) "p" (some 0) (some 0) none none none
      pending_pool pending_row here is_sealed differs

outcome_example :
    ((leb 50 5 || before_locktime (map_broadcast_row 5 key pending_row) 50 ≡ false)
      × (shown (schedule_at "p" 50 2 pending_pool).0 ≡ some (scheduled, (some 50, some false))))
    ⊎ ((leb 50 5 || before_locktime (map_broadcast_row 5 key pending_row) 50 ≡ true)
        × ((shown (schedule_at "p" 50 2 pending_pool).0 ≡ none)
            × ((schedule_at "p" 50 2 pending_pool).1.db ≡ pending_pool.db)))
unfolding pending_pool
outcome_example = schedule_at-outcome toy-Decodes "p" 50 2 pending_row pending_pool here
