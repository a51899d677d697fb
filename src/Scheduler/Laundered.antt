-- ===== src/Scheduler/Laundered.antt =====
-- What the block height monitor of src/pool/scheduler.rs does to a row that was tampered with.
use broadcast_pool.Prelude.{
  ℕ, ◌+◌, ◌≤◌, String, Bool, true, false, ◌&&◌, ltb, some, List, [], ◌∷◌, map, select, str_eq,
  str_eq_iff, ok, ◌≡◌, refl, sym, subst, ◌∙◌, ap, Bool-cases, inl, inr, arith,
}
use mathlib.Core.Option
use broadcast_pool.Platform.{Platform}
use broadcast_pool.Models.{BroadcastTx, scheduled, from_str}
use broadcast_pool.Db.{
  Row, Database, find, by_id, map_broadcast_row, expected_mac, update_where, reseal_row_mac,
}
use broadcast_pool.Db.Find.{
  find-update_where, find-update_other, find-reseal_other, reseal_row_mac-found, read-found,
}
use broadcast_pool.Db.Seal.{IsSealed, tampered-map_broadcast_row}
use broadcast_pool.Db.Write.{mark_due, get_broadcast_tx_by_id}
use broadcast_pool.Db.Read.{get_pending_by_block_height, column_is}
use broadcast_pool.Pool.{Backends, PoolManager}
use broadcast_pool.Pool.Health.{clock_available, check_block_height}
use broadcast_pool.Pool.Tick.{mark_as_due}
use broadcast_pool.Pool.Quiet.{check_block_height-Same}
use broadcast_pool.Scheduler.Monitors.{height_reached, mark_reached, block_height_round}

-- The rows that the monitor reads.
abbrev pub waits_for_block : String → Row → Bool
waits_for_block network r =
    str_eq r.status "pending"
    && column_is r.broadcast_mode "by_block"
    && ltb 0 r.nlocktime
    && ltb r.nlocktime 500_000_000
    && str_eq r.network network

module _ ⦃p : Platform⦄ (j : String) where
  -- A row is there; it is scheduled, and sealed.
  abbrev Present : Database → Type 0
  Present db = (r : Row) × (find j db.pool ≡ some r)

  abbrev Standing : Database → Type 0
  Standing db =
      (r : Row) × ((find j db.pool ≡ some r) × (IsSealed db.key r × (r.status ≡ "scheduled")))

  due-hit : (now : ℕ) (db : Database) → Present db → Standing (mark_due now j db).1
  unfolding mark_due expected_mac update_where
  due-hit now db (r, e) =
      let due : Row → Row = λ x. record x {
        status = "scheduled";
        scheduled_time = some (p.rfc3339 now);
        updated_at = p.rfc3339 now;
      } in
      let updated = record db { pool = update_where (by_id j) due db.pool } in
      let there : find j updated.pool ≡ some (due r) =
        find-update_where j due (λ x. refl) db.pool ∙ ap (Option.map due) e in
      let (done, (kept, found)) = reseal_row_mac-found j updated (due r) there in
      (
        record (due r) { row_mac = some (expected_mac db.key (due r)) },
        (found, (ap (λ k. some (expected_mac k (due r))) (sym kept), refl)),
      )

  due-other :
      (now : ℕ) (id : String) (db : Database)
      → str_eq id j ≡ false
      → find j (mark_due now id db).1.pool ≡ find j db.pool
  unfolding mark_due
  due-other now id db other =
      find-reseal_other id j _ other
      ∙ find-update_other id j _ _ (λ r h. h) (λ r. refl) other db.pool

  due-key : (now : ℕ) (id : String) (db : Database) → (mark_due now id db).1.key ≡ db.key
  unfolding mark_due reseal_row_mac
  due-key now id db = ground arith

  due-at :
      (now : ℕ) (id : String) (db : Database)
      → str_eq id j ≡ true
      → Present db
      → Standing (mark_due now id db).1
  due-at now id db same here =
      subst (λ i. Standing (mark_due now i db).1) (sym ((str_eq_iff id j).0 same))
        (due-hit now db here)

  due-Present :
      (now : ℕ) (id : String) (db : Database) → Present db → Present (mark_due now id db).1
  due-Present now id db (r, e) = elim (Bool-cases (str_eq id j)) [
    | inl same ↦ let (q, (here, rest)) = due-at now id db same (r, e) in (q, here)
    | inr other ↦ (r, due-other now id db other ∙ e)
  ]

  due-Standing :
      (now : ℕ) (id : String) (db : Database) → Standing db → Standing (mark_due now id db).1
  due-Standing now id db (r, (e, (sealed, waits))) = elim (Bool-cases (str_eq id j)) [
    | inl same ↦ due-at now id db same (r, e)
    | inr other ↦ (
      r,
      (
        due-other now id db other ∙ e,
        (sealed ∙ ap (λ k. some (expected_mac k r)) (sym (due-key now id db)), waits),
      ),
    )
  ]

  module _ ⦃b : Backends⦄ where
    -- The state after one transaction is marked.
    abbrev marked : String → PoolManager → PoolManager
    marked id s = record s { db = (mark_due (b.now s.calls) id s.db).1; calls = s.calls + 1 }

    reached-Standing :
        (height : ℕ) (txs : List BroadcastTx) (s : PoolManager)
        → Standing s.db
        → Standing (mark_reached height txs s).1.db
    unfolding mark_reached mark_as_due
    reached-Standing height [] s h = h
    reached-Standing height (tx ∷ txs) s h = elim (Bool-cases (height_reached height tx)) [
      | inl e ↦
          rw e (
            reached-Standing height txs (marked tx.id s)
              (due-Standing (b.now s.calls) tx.id s.db h))
      | inr e ↦ rw e (reached-Standing height txs s h)
    ]

    row-reached :
        (height now : ℕ) (key : List ℕ) (network : String) (r : Row)
        → waits_for_block network r ≡ true
        → r.nlocktime ≤ height
        → height_reached height (map_broadcast_row now key r) ≡ true
    unfolding height_reached map_broadcast_row
    row-reached height now key network r waits low = ground (arith, waits, low)

    abbrev batch : ℕ → List ℕ → String → List Row → List BroadcastTx
    batch now key network rows =
        map (map_broadcast_row now key) (select (waits_for_block network) rows)

    rows-Standing :
        (height now : ℕ) (key : List ℕ) (network : String) (r : Row)
        → waits_for_block network r ≡ true
        → r.nlocktime ≤ height
        → (rows : List Row) (s : PoolManager) → find j rows ≡ some r
        → Present s.db
        → Standing (mark_reached height (batch now key network rows) s).1.db
    unfolding find mark_reached mark_as_due map_broadcast_row
    rows-Standing height now key network r waits low [] s e here = absurd (ground (arith, e))
    rows-Standing height now key network r waits low (x ∷ rows) s e here =
        elim (Bool-cases (str_eq x.id j)) [
          | inl same ↦
              let first : x ≡ r = ground (arith, e, same) in
              let due = ap (waits_for_block network) first ∙ waits in
              let reached : height_reached height (map_broadcast_row now key x) ≡ true =
                ap (λ y. height_reached height (map_broadcast_row now key y)) first
                ∙ row-reached height now key network r waits low in
              rw (due, reached)
                (reached-Standing height (batch now key network rows) (marked x.id s)
                  (due-at (b.now s.calls) x.id s.db same here))
          | inr other ↦
              let later : find j rows ≡ some r = ground (arith, e, other) in
              let go : (t : PoolManager)
                  → Present t.db
                  → Standing (mark_reached height (batch now key network rows) t).1.db =
                λ t h. rows-Standing height now key network r waits low rows t later h in
              elim (Bool-cases (waits_for_block network x)) [
                | inl f ↦ elim (Bool-cases (height_reached height (map_broadcast_row now key x))) [
                  | inl g ↦
                      rw (f, g) (go (marked x.id s) (due-Present (b.now s.calls) x.id s.db here))
                  | inr g ↦ rw (f, g) (go s here)
                ]
                | inr f ↦ rw f (go s here)
              ]
        ]

    round-Standing :
        (height : ℕ) (r : Row) (s : PoolManager)
        → clock_available s.chain_health ≡ true
        → (check_block_height s).0 ≡ ok (some height)
        → find j s.db.pool ≡ some r
        → waits_for_block s.config.network r ≡ true
        → r.nlocktime ≤ height
        → Standing (block_height_round s).1.db
    unfolding block_height_round get_pending_by_block_height
    round-Standing height r s clock heard e waits low =
        let t = (check_block_height s).1 in
        let here : find j t.db.pool ≡ some r =
          ap (λ d. find j d.pool) (check_block_height-Same s).db ∙ e in
        rw (clock, heard)
          (rows-Standing height (b.now t.calls) t.db.key s.config.network r waits low t.db.pool
            (record t { calls = t.calls + 1 }) here (r, here))

    -- Where the chain clock is there and a height is heard, a round of the block height monitor
    -- sets a row that is the first under its id and waits for a block at or below that height to
    -- scheduled, and a later read of it says that it is untampered, whatever its MAC was before.
    pub block_height_round-Laundered :
        (height now : ℕ) (r : Row) (s : PoolManager)
        → clock_available s.chain_health ≡ true
        → (check_block_height s).0 ≡ ok (some height)
        → find j s.db.pool ≡ some r
        → waits_for_block s.config.network r ≡ true
        → r.nlocktime ≤ height
        → (tx : BroadcastTx) × (((get_broadcast_tx_by_id now j (block_height_round s).1.db).0
              ≡ ok tx)
            × ((tx.tampered ≡ some false) × (tx.status ≡ scheduled)))
    unfolding map_broadcast_row from_str
    block_height_round-Laundered height now r s clock heard e waits low =
        let (q, (found, (sealed, standing))) = round-Standing height r s clock heard e waits low in
        let after = (block_height_round s).1.db in
        (
          map_broadcast_row now after.key q,
          (
            read-found now j after q found,
            ((tampered-map_broadcast_row now after.key q).1 sealed, ap from_str standing),
          ),
        )
