-- ===== src/Pool/Schedule/Triggers.antt =====
-- Which rows `check_price_triggers` of src/pool/manager.rs touches.
use broadcast_pool.Prelude.{
  ℕ, ◌+◌, String, Bool, true, false, ◌&&◌, ◌||◌, ◌≡◌, refl, ◌∙◌, ap, List, [], ◌∷◌, map, select,
  str_eq, if◌then◌else◌, arith, All, Bool-cases, inl, inr, is_some,
}
use broadcast_pool.Platform.{Platform}
use broadcast_pool.Models.{BroadcastTx}
use broadcast_pool.Db.{Row, Database, find, map_broadcast_row}
use broadcast_pool.Db.Find.{find-update_other, find-reseal_other}
use broadcast_pool.Db.Read.{column_is, get_price_triggered_pending}
use broadcast_pool.Db.Write.{mark_due_from_price_trigger}
use broadcast_pool.Pool.{Backends, PoolManager}
use broadcast_pool.Pool.Schedule.{price_due, trigger_all, check_price_triggers}

-- A row that waits for a price.
abbrev pub awaits : String → Row → Bool
awaits network r =
    (str_eq r.status "pending" || str_eq r.status "scheduled")
    && column_is r.schedule_trigger "price"
    && is_some r.target_price
    && str_eq r.network network

module _ ⦃p : Platform⦄ where
  mark-other :
      (now : ℕ) (id j : String) (db : Database)
      → str_eq id j ≡ false
      → find j (mark_due_from_price_trigger now id db).1.pool ≡ find j db.pool
  unfolding mark_due_from_price_trigger
  mark-other now id j db other =
      find-reseal_other id j _ other
      ∙ find-update_other id j _ _ (λ r h. h) (λ r. refl) other db.pool

module _ ⦃p : Platform⦄ ⦃b : Backends⦄ (prices : List (String × ℕ)) (j : String) where
  -- After the row is marked, or is not.
  marked : BroadcastTx → PoolManager → PoolManager
  marked tx s =
      if price_due prices tx
      then record s {
        db = (mark_due_from_price_trigger (b.now s.calls) tx.id s.db).1;
        calls = s.calls + 1;
      }
      else s

  trigger_all-step :
      (tx : BroadcastTx) (txs : List BroadcastTx) (s : PoolManager)
      → (trigger_all prices (tx ∷ txs) s).1 ≡ (trigger_all prices txs (marked tx s)).1
  unfolding trigger_all marked
  trigger_all-step tx txs s = ground arith

  marked-other :
      (tx : BroadcastTx) (s : PoolManager)
      → (price_due prices tx ≡ true → str_eq tx.id j ≡ false)
      → find j (marked tx s).db.pool ≡ find j s.db.pool
  unfolding marked
  marked-other tx s h = elim (Bool-cases (price_due prices tx)) [
    | inl due ↦ simp due (mark-other (b.now s.calls) tx.id j s.db (h due))
    | inr idle ↦ simp idle refl
  ]

  trigger_all-other :
      (txs : List BroadcastTx) (s : PoolManager)
      → All (λ tx. price_due prices tx ≡ true → str_eq tx.id j ≡ false) txs
      → find j (trigger_all prices txs s).1.db.pool ≡ find j s.db.pool
  unfolding trigger_all
  trigger_all-other [] s h = refl
  trigger_all-other (tx ∷ txs) s h =
      ap (λ t. find j t.db.pool) (trigger_all-step tx txs s)
      ∙ trigger_all-other txs (marked tx s) h.1
      ∙ marked-other tx s h.0

  selected_All :
      (now : ℕ) (key : List ℕ) (network : String) (rs : List Row)
      → All
          (λ r.
            awaits network r ≡ true
            → price_due prices (map_broadcast_row now key r) ≡ true
            → str_eq r.id j ≡ false)
          rs
      → All
          (λ tx. price_due prices tx ≡ true → str_eq tx.id j ≡ false)
          (map (map_broadcast_row now key) (select (awaits network) rs))
  unfolding map_broadcast_row
  selected_All now key network [] h = tt
  selected_All now key network (r ∷ rs) h = elim (Bool-cases (awaits network r)) [
    | inl waits ↦ rw waits ((λ due. h.0 waits due), selected_All now key network rs h.1)
    | inr idle ↦ rw idle (selected_All now key network rs h.1)
  ]

  -- The row under an `id` stays as it is unless a row under that `id` waits for a price, in the configured
  -- network, and its price is due.
  pub check_price_triggers-other :
      (s : PoolManager)
      → All
          (λ r.
            awaits s.config.network r ≡ true
            → price_due prices (map_broadcast_row (b.now s.calls) s.db.key r) ≡ true
            → str_eq r.id j ≡ false)
          s.db.pool
      → find j (check_price_triggers prices s).1.db.pool ≡ find j s.db.pool
  unfolding check_price_triggers get_price_triggered_pending
  check_price_triggers-other s h =
      trigger_all-other _ (record s { calls = s.calls + 1 })
        (selected_All (b.now s.calls) s.db.key s.config.network s.db.pool h)
