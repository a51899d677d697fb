-- ===== src/Examples/Rounds.antt =====
-- The theorems on the status, on opening a database, on the broadcast loop and on confirmations at
-- concrete inputs.
use broadcast_pool.Prelude.{
  contains, ℕ, String, true, false, none, some, Option, [], if◌then◌else◌, ◌∷◌, strip_prefix, sym,
  ◌∙◌, str_eq, str_eq_iff, show_nat, ok, ◌≡◌, ◌≢◌, refl, arith,
}
use mathlib.Core.List.Perm
use mathlib.Core.Option
use broadcast_pool.Models.{BroadcastTx, scheduled}
use broadcast_pool.Json.{Value, string, object, end, field, from_u64}
use broadcast_pool.Db.{
  decode_or_keep, reseal_row_mac, map_broadcast_row, Row, Database, find, expected_mac,
  row_mac_input, join,
}
use broadcast_pool.Crypto.{mac, decode_field}
use broadcast_pool.Db.Read.{by_created_desc}
use broadcast_pool.Db.Write.{get_broadcast_tx_by_id}
use broadcast_pool.Db.Open.{migration_007}
use broadcast_pool.Db.Open.Reclassified.{reclassify, migration_007-Read}
use broadcast_pool.Pool.{PoolManager, Backends, no_source}
use broadcast_pool.Pool.Tick.{run_scheduler_tick}
use broadcast_pool.Pool.Confirm.{check_confirmations}
use broadcast_pool.Pool.Confirm.Seen.{check_confirmations-Other}
use broadcast_pool.Scheduler.{started, run_broadcast_loop}
use broadcast_pool.Pool.Health.{check_block_height, clock_available, should_try_indexer}
use broadcast_pool.Scheduler.Monitors.{block_height_round}
use broadcast_pool.Scheduler.Laundered.{block_height_round-Laundered}
use broadcast_pool.Scheduler.Waits.{rounds_of, run_broadcast_loop-waits}
use broadcast_pool.Electrum.Status.{compute_status_hash}
use broadcast_pool.Electrum.Status.Order.{compute_status_hash-Perm}
use broadcast_pool.Examples.Toy.{toy, hex, letters}
use broadcast_pool.Examples.World.{key, manager, steady, bare}
use broadcast_pool.Examples.Wallets.{small}

abbrev at_height : ℕ → String → Value
at_height height txid =
    object (field "height" (from_u64 height) (field "tx_hash" (string txid) end))

compute_status_hash-Perm_example :
    compute_status_hash (at_height 5 "a" ∷ at_height 5 "b" ∷ [])
    ≡ compute_status_hash (at_height 5 "b" ∷ at_height 5 "a" ∷ [])
compute_status_hash-Perm_example =
    compute_status_hash-Perm (at_height 5 "a" ∷ at_height 5 "b" ∷ [])
      (at_height 5 "b" ∷ at_height 5 "a" ∷ []) (Perm.swap (at_height 5 "b") (at_height 5 "a") [])

-- A sealed row that waits to be sent at once.
abbrev at_once : Row
at_once =
    let r = record (bare "a" "enc:v1:00" 0) {
      status = "pending";
      broadcast_mode = some "immediate";
    } in
    record r { row_mac = some (expected_mac key r) }

abbrev stored : Database
stored = record { key = key; pool = at_once ∷ []; archive = []; config_store = [] }

moved_mac : String
moved_mac = expected_mac key (reclassify at_once)

unlike : str_eq moved_mac (expected_mac key at_once) ≡ false
unfolding moved_mac expected_mac row_mac_input join mac show_nat hex letters
unlike = refl

differs : expected_mac key (reclassify at_once) ≢ expected_mac key at_once
unfolding moved_mac
differs e = absurd (ground (arith, unlike, (str_eq_iff moved_mac (expected_mac key at_once)).1 e))

migration_007-Read_example :
    (tx : BroadcastTx) × (((get_broadcast_tx_by_id 5 "a" (migration_007 stored).1).0 ≡ ok tx)
      × (tx.tampered ≡ some true))
unfolding find expected_mac
migration_007-Read_example =
    migration_007-Read key 5 "a" stored at_once refl refl refl (λ w. differs)

-- A pool without a chain source.
abbrev cut_off : PoolManager
cut_off = record manager { chain_health = record manager.chain_health { source = no_source } }

run_broadcast_loop-waits_example :
    (run_broadcast_loop (true ∷ true ∷ false ∷ true ∷ []) (started cut_off)).waits ≡ 1 ∷ 2 ∷ 4 ∷ []
unfolding rounds_of run_scheduler_tick clock_available contains
run_broadcast_loop-waits_example =
    run_broadcast_loop-waits (true ∷ true ∷ false ∷ true ∷ []) cut_off

-- Bitcoin Core reports one of the two broadcast rows in a block.
abbrev in_block_t : Backends
in_block_t = record steady {
  has_rpc = true;
  rpc_alive = λ n. true;
  rpc_height = λ n. ok 801;
  rpc_transaction = λ n txid. if str_eq txid "t" then some true else none;
}

abbrev sent_as : String → String → Row
sent_as id t = record (bare id "ee" 0) { status = "broadcast"; txid = some t }

abbrev watching : PoolManager
watching = record manager { db = record stored { pool = sent_as "b" "t" ∷ sent_as "a" "u" ∷ [] } }

confirmed_b :
    Option.map
      (λ r. r.status)
      (find "b" (check_confirmations ⦃b = in_block_t⦄ (λ txid. none) watching).1.db.pool)
    ≡ some "confirmed"
unfolding check_confirmations find by_created_desc map_broadcast_row decode_or_keep decode_field
    strip_prefix reseal_row_mac
confirmed_b = refl

unlisted : (txid : String) → txid ≡ "u" → (if str_eq txid "t" then some true else none) ≡ none
unlisted txid e = rw e refl

unreported :
    (o : Option String) (txid : String)
    → o ≡ some "u"
    → o ≡ some txid
    → (if str_eq txid "t" then some true else none) ≡ some true
    → str_eq "a" "a" ≡ false
unreported o txid e f g =
    let named : txid ≡ "u" = ground (arith, e, f) in
    let none_is : none ≡ some true = sym (unlisted txid named) ∙ g in
    absurd (ground (arith, none_is))

check_confirmations-Other_example :
    find "a" (check_confirmations ⦃b = in_block_t⦄ (λ txid. none) watching).1.db.pool
    ≡ find "a" watching.db.pool
unfolding by_created_desc map_broadcast_row
check_confirmations-Other_example =
    check_confirmations-Other (λ txid. none) ⦃b = in_block_t⦄ "a" watching
      ((λ txid n. unreported _ txid refl), ((λ txid n e f. refl), tt))

-- A row that waits for the block 700, with a MAC that is not its own.
abbrev forged : Row
forged = record (bare "f" "ee" 700) {
  status = "pending";
  broadcast_mode = some "by_block";
  row_mac = some "00";
}

abbrev at_700 : PoolManager
at_700 = record manager { db = record stored { pool = forged ∷ [] } }

block_height_round-Laundered_example :
    (tx : BroadcastTx) × (((get_broadcast_tx_by_id 9 "f" (block_height_round at_700).1.db).0
        ≡ ok tx)
      × ((tx.tampered ≡ some false) × (tx.status ≡ scheduled)))
unfolding check_block_height clock_available should_try_indexer find
block_height_round-Laundered_example =
    block_height_round-Laundered "f" 800 9 forged at_700 refl refl refl refl (omega arith)
