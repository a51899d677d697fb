-- ===== src/Electrum/Ingest/Described.antt =====
-- The row that an ingest of src/electrum_server/mod.rs makes, by the source and the lock of the
-- transaction.
use broadcast_pool.Prelude.{
  ℕ, ◌+◌, ◌*◌, ◌<◌, ◌^◌, String, true, false, Option, none, some, ok, trim, ◌≡◌, ◌≢◌, refl, sym,
  ◌∙◌, ap, arith, length, unwrap_or, or_else, ltb, if◌then◌else◌, str_eq, str_eq_iff,
}
use broadcast_pool.Platform.{Platform, Decodes}
use broadcast_pool.Models.{BroadcastTx, pending, second}
use broadcast_pool.Transactions.{Transaction, Codec, decode_tx}
use broadcast_pool.Db.{find}
use broadcast_pool.Db.Write.{get_broadcast_tx_by_id}
use broadcast_pool.Db.Write.RoundTrip.{imported}
use broadcast_pool.Pool.{
  BroadcastMode, immediate, scheduled, by_block, manual, Backends, PoolManager,
}
use broadcast_pool.Electrum.Plan.{Draw, block_plan, resolve_ingest_plan, mode_text}
use broadcast_pool.Electrum.Ingest.{draw, Fresh, handle_broadcast, capture_virtual_target}
use broadcast_pool.Electrum.Ingest.Kept.{planned, entry, handle_broadcast-Row}

-- The known tip, if any, is below a height.
abbrev pub TipBelow : Option ℕ → ℕ → Type 0
TipBelow none lock = Unit
TipBelow (some tip) lock = tip < lock

-- The mode, the time and the lock that a transaction is to have.
pub data Due (source : String) (tx : Transaction) (s : PoolManager)
    : String → Option ℕ → ℕ → Type 0 where
  armed_block :
      str_eq source "liana" ≡ true
      → s.config.liana_virtual_block.enabled ≡ true
      → Due source tx s "by_block" none s.config.liana_virtual_block.target_height
  unarmed :
      str_eq source "liana" ≡ true
      → s.config.liana_virtual_block.enabled ≡ false
      → Due source tx s "manual" none tx.lock_time
  plain : str_eq source "sparrow" ≡ true → tx.lock_time ≡ 0 → Due source tx s "manual" none 0
  timed :
      str_eq source "liana" ≡ false
      → 500_000_000 < tx.lock_time
      → Due source tx s "scheduled" (some (tx.lock_time * second)) tx.lock_time
  waiting :
      str_eq source "liana" ≡ false
      → 0 < tx.lock_time
      → tx.lock_time < 500_000_000
      → TipBelow s.chain_health.height tx.lock_time
      → Due source tx s "by_block" none tx.lock_time

sparrow_only : (source : String) → str_eq source "sparrow" ≡ true → str_eq source "liana" ≡ false
sparrow_only source e = rw ((str_eq_iff source "sparrow").0 e) refl

block_plan-TipBelow :
    ⦃p : Platform⦄ (d : Draw) (lock : ℕ) (o : Option ℕ)
    → TipBelow o lock
    → block_plan d lock o ≡ (by_block, none)
block_plan-TipBelow d lock none h = refl
block_plan-TipBelow d lock (some tip) h = ground (arith, h)

module _ ⦃p : Platform⦄ ⦃c : Codec⦄ ⦃b : Backends⦄ (fresh : Fresh) (source hex : String)
    (tx : Transaction) (s : PoolManager) where
  -- The lock of the row in a mode.
  abbrev lock_in : BroadcastMode → ℕ
  lock_in m =
      unwrap_or
        (or_else (capture_virtual_target m source (record s { calls = s.calls + 1 })).0
          (if ltb 0 tx.lock_time then some tx.lock_time else none))
        0

  own_lock : (m : BroadcastMode) → str_eq source "liana" ≡ false → lock_in m ≡ tx.lock_time
  unfolding capture_virtual_target
  own_lock immediate e = ground arith
  own_lock scheduled e = ground arith
  own_lock by_block e = ground (arith, e)
  own_lock manual e = ground arith

  manual_lock : lock_in manual ≡ tx.lock_time
  unfolding capture_virtual_target
  manual_lock = ground arith

  armed_lock :
      str_eq source "liana" ≡ true
      → s.config.liana_virtual_block.enabled ≡ true
      → lock_in by_block ≡ s.config.liana_virtual_block.target_height
  unfolding capture_virtual_target
  armed_lock e f = ground (arith, e, f)

  abbrev Planned : String → Option ℕ → ℕ → Type 0
  Planned mode time lock =
      (m : BroadcastMode) × ((planned fresh source hex tx s ≡ (m, time))
        × ((mode_text m ≡ mode) × ((m ≢ immediate) × (lock_in m ≡ lock))))

  Due-Planned :
      (mode : String) (time : Option ℕ) (lock : ℕ)
      → Due source tx s mode time lock
      → Planned mode time lock
  unfolding resolve_ingest_plan
  Due-Planned mode time lock (armed_block e f) =
      (by_block, (ground (arith, e, f), (refl, ((λ k. ground arith), armed_lock e f))))
  Due-Planned mode time lock (unarmed e f) =
      (manual, (ground (arith, e, f), (refl, ((λ k. ground arith), manual_lock))))
  Due-Planned mode time lock (plain e f) = (
    manual,
    (ground (arith, e, f, sparrow_only source e), (refl, ((λ k. ground arith), manual_lock ∙ f))),
  )
  Due-Planned mode time lock (timed e f) =
      (scheduled, (ground (arith, e, f), (refl, ((λ k. ground arith), own_lock scheduled e))))
  Due-Planned mode time lock (waiting e f g h) = (
    by_block,
    (
      ground (
        arith,
        e,
        f,
        g,
        block_plan-TipBelow (draw fresh (b.now s.calls)) tx.lock_time s.chain_health.height h,
      ),
      (refl, ((λ k. ground arith), own_lock by_block e)),
    ),
  )

module _ ⦃p : Platform⦄ ⦃c : Codec⦄ ⦃b : Backends⦄ (laws : Decodes p) (fresh : Fresh)
    (source hex : String) (tx : Transaction) (s : PoolManager) where
  -- With codecs that decode what they encode, nonces of 12 bytes, a fresh row id, an armed height
  -- below 2^63 and a transaction that decodes, with a lock below 2^32: the row that an ingest makes
  -- is read as pending and untampered, with the hex and the source. From Liana it waits for the
  -- armed height where the virtual block is enabled, and is manual with its own lock where it is
  -- not; from Sparrow it is manual where it has no lock; from any source but Liana it is scheduled
  -- for the time of a lock above 500,000,000, and waits for the height of a positive lock below
  -- that which the known tip, if any, has not reached.
  pub handle_broadcast-Due :
      ((n : ℕ) → length (fresh.nonce n) ≡ 12)
      → find fresh.id s.db.pool ≡ none
      → decode_tx hex ≡ ok tx
      → s.config.liana_virtual_block.target_height < 2 ^ 63
      → tx.lock_time < 2 ^ 32
      → (mode : String) (time : Option ℕ) (lock : ℕ) → Due source tx s mode time lock
      → (now : ℕ) × ((row : BroadcastTx) × (((get_broadcast_tx_by_id now fresh.id
                (handle_broadcast fresh source hex s).1.db).0
              ≡ ok row)
            × ((row.broadcast_mode ≡ some mode)
                × ((row.scheduled_time ≡ time)
                    × ((row.nlocktime ≡ some lock)
                        × ((row.tx_hex ≡ trim hex)
                            × ((row.source_label ≡ some source)
                                × ((row.status ≡ pending) × (row.tampered ≡ some false)))))))))
  handle_broadcast-Due sized free e low own mode time lock due =
      let (m, (plan, (text, (later, waits)))) =
        Due-Planned fresh source (trim hex) tx s mode time lock due in
      let not_now : (planned fresh source (trim hex) tx s).0 ≢ immediate =
        λ k. later (sym (ap (λ q. q.0) plan) ∙ k) in
      let (now, read) =
        handle_broadcast-Row laws fresh source hex tx s sized free e low own not_now in
      (
        now,
        (
          imported now fresh.id fresh.derived (entry fresh source (trim hex) tx s),
          (
            read,
            (
              ap (λ q. some (mode_text q.0)) plan ∙ ap some text,
              (
                ap (λ q. q.1) plan,
                (
                  ap (λ q. some (lock_in fresh source (trim hex) tx s q.0)) plan ∙ ap some waits,
                  (refl, (refl, (refl, refl))),
                ),
              ),
            ),
          ),
        ),
      )
