-- ===== src/Pool/Schedule/Outcome.antt =====
-- When `schedule_at` of src/pool/manager.rs accepts a time, and what it then leaves.
use broadcast_pool.Prelude.{
  ℕ, ◌+◌, String, Bool, true, false, ◌||◌, leb, ◌≡◌, refl, sym, ◌∙◌, ap, Option, none, some, List,
  if◌then◌else◌, arith, Result, ok, err, Bool-cases, inl, inr, ◌⊎◌,
}
use mathlib.Core.Option
use broadcast_pool.Platform.{Platform, Decodes}
use broadcast_pool.Models.{BroadcastTx, TxStatus, scheduled, from_str}
use broadcast_pool.Db.{
  Row, Database, by_id, find, update_where, expected_mac, map_broadcast_row, reseal_row_mac,
}
use broadcast_pool.Db.Find.{find-update_where, reseal_row_mac-found}
use broadcast_pool.Db.Write.{get_broadcast_tx_by_id, update_reschedule}
use broadcast_pool.Db.Seal.{IsSealed, tampered-map_broadcast_row}
use broadcast_pool.Pool.{Backends, PoolManager}
use broadcast_pool.Pool.Due.{enrich_tx_locktime}
use broadcast_pool.Pool.Schedule.{
  schedule_at, get_tx, get_transaction, before_locktime, is_reschedule,
}

-- The status, the time and the integrity of the row that a call returns.
abbrev pub shown : Result BroadcastTx → Option (TxStatus × (Option ℕ × Option Bool))
shown (ok tx) = some (tx.status, (tx.scheduled_time, tx.tampered))
shown (err _) = none

module _ ⦃b : Backends⦄ where
  shown-enrich_tx_locktime :
      (tx : BroadcastTx) (s : PoolManager)
      → shown (enrich_tx_locktime tx s).0 ≡ some (tx.status, (tx.scheduled_time, tx.tampered))
  unfolding enrich_tx_locktime
  shown-enrich_tx_locktime tx s = ground arith

module _ ⦃p : Platform⦄ ⦃b : Backends⦄ (laws : Decodes p) (id : String) (at fee : ℕ) where
  abbrev resealed : List ℕ → Row → Row
  resealed key r = record r { row_mac = some (expected_mac key r) }

  resealed-IsSealed : (key : List ℕ) (r : Row) → IsSealed key (resealed key r)
  unfolding expected_mac
  resealed-IsSealed key r = refl

  read_status :
      (now : ℕ) (key : List ℕ) (r : Row)
      → r.status ≡ "scheduled"
      → (map_broadcast_row now key r).status ≡ scheduled
  unfolding map_broadcast_row from_str
  read_status now key r e = ap from_str e

  read_time :
      (now : ℕ) (key : List ℕ) (r : Row)
      → r.scheduled_time ≡ some (p.rfc3339 at)
      → (map_broadcast_row now key r).scheduled_time ≡ some at
  unfolding map_broadcast_row
  read_time now key r e = simp (e, laws.time at) refl

  -- The read after the update.
  shown-get_transaction :
      (r : Row) (s : PoolManager)
      → find id s.db.pool ≡ some (resealed s.db.key r)
      → r.status ≡ "scheduled"
      → r.scheduled_time ≡ some (p.rfc3339 at)
      → shown (get_transaction id s).0 ≡ some (scheduled, (some at, some false))
  unfolding get_transaction get_tx get_broadcast_tx_by_id
  shown-get_transaction r s here e f =
      let now = b.now s.calls in
      let key = s.db.key in
      let tx = map_broadcast_row now key (resealed key r) in
      ground (
        arith,
        here,
        shown-enrich_tx_locktime tx (record s { calls = s.calls + 1 }),
        read_status now key (resealed key r) e,
        read_time now key (resealed key r) f,
        (tampered-map_broadcast_row now key (resealed key r)).1 (resealed-IsSealed key r),
      )

  module _ (r : Row) (s : PoolManager) (here : find id s.db.pool ≡ some r) where
    before : BroadcastTx
    before = map_broadcast_row (b.now s.calls) s.db.key r

    change : Row → Row
    unfolding before
    change x = record x {
      status = "scheduled";
      scheduled_time = some (p.rfc3339 at);
      defer_until = if is_reschedule before then some (p.rfc3339 at) else none;
      target_fee_rate = some fee;
      error_message = none;
      schedule_trigger = some "datetime";
      target_price = none;
      price_currency = none;
      price_condition = none;
      updated_at = p.rfc3339 (b.now (s.calls + 1 + 1));
    }

    updated_db : Database
    unfolding change
    updated_db = record s.db { pool = update_where (by_id id) change s.db.pool }

    updated : find id updated_db.pool ≡ some (change r)
    unfolding updated_db change
    updated = find-update_where id change (λ x. refl) s.db.pool ∙ ap (Option.map change) here

    after : PoolManager
    unfolding updated_db
    after = record s { db = (reseal_row_mac id updated_db).1; calls = s.calls + 1 + 1 + 1 }

    after_here : find id after.db.pool ≡ some (resealed after.db.key (change r))
    unfolding after
    after_here =
        let done = reseal_row_mac-found id updated_db (change r) updated in
        done.1.1 ∙ ap (λ k. some (resealed k (change r))) (sym done.1.0)

    accepted :
        leb at (b.now (s.calls + 1)) ≡ false
        → before_locktime before at ≡ false
        → (schedule_at id at fee s).0 ≡ (get_transaction id after).0
    unfolding schedule_at get_tx get_broadcast_tx_by_id update_reschedule after updated_db change
        before
    accepted future unlocked =
        ground (arith, here, (reseal_row_mac-found id updated_db (change r) updated).0)

  -- A row of the table, whatever its status, is scheduled for a time exactly when that time lies in the
  -- future and not before the transaction's own nLockTime, if that is a time. Then the call returns the
  -- row with the status "scheduled", that time and an intact seal; otherwise it fails and the table stays.
  pub schedule_at-outcome :
      (r : Row) (s : PoolManager)
      → find id s.db.pool ≡ some r
      → let tx = map_broadcast_row (b.now s.calls) s.db.key r in
        let refused = leb at (b.now (s.calls + 1)) || before_locktime tx at in
        ((refused ≡ false)
          × (shown (schedule_at id at fee s).0 ≡ some (scheduled, (some at, some false))))
        ⊎ ((refused ≡ true)
            × ((shown (schedule_at id at fee s).0 ≡ none)
                × ((schedule_at id at fee s).1.db ≡ s.db)))
  unfolding schedule_at get_tx get_broadcast_tx_by_id update_reschedule before change
  schedule_at-outcome r s here = elim (Bool-cases (leb at (b.now (s.calls + 1)))) [
    | inl past ↦ inr (ground arith)
    | inr future ↦
        elim (Bool-cases (before_locktime (map_broadcast_row (b.now s.calls) s.db.key r) at)) [
          | inl early ↦ inr (ground arith)
          | inr late ↦ inl (
            ground arith,
            ap shown (accepted r s here future late)
                ∙ shown-get_transaction (change r s here r) (after r s here) (after_here r s here)
                    refl refl,
          )
        ]
  ]
