-- ===== src/Pool/Sends/Rebroadcast.antt =====
-- `rebroadcast_pending` of src/pool/manager.rs and the halt.
use broadcast_pool.Prelude.{
  ◌+◌, String, Bool, ◌≡◌, refl, sym, ◌∙◌, ap, some, List, [], ◌∷◌, arith, Result, ok, err,
}
use broadcast_pool.Platform.{Platform}
use broadcast_pool.Models.{BroadcastTx}
use broadcast_pool.Db.{Database}
use broadcast_pool.Db.Write
use broadcast_pool.Db.Read.{get_pending_rebroadcast}
use broadcast_pool.Pool.{Backends, PoolManager}
use broadcast_pool.Pool.Broadcast.{Outcomes, broadcast_transaction}
use broadcast_pool.Pool.Tick.{rebroadcast_all, rebroadcast_pending}

abbrev pub halt_set : {A : Type 0} → Bool → A × PoolManager → A × PoolManager
halt_set m (r, s) = (r, record s { safe_mode = m })

module _ ⦃p : Platform⦄ ⦃b : Backends⦄ (m : Bool) where
  broadcast_transaction-halt_set :
      (hex : String) (s : PoolManager)
      → broadcast_transaction hex (record s { safe_mode = m })
        ≡ halt_set m (broadcast_transaction hex s)
  unfolding broadcast_transaction
  broadcast_transaction-halt_set hex s = ground arith

  -- After a backend took the transaction, or did not.
  settle : BroadcastTx → Result String → PoolManager → PoolManager
  settle tx (ok _) t = record t {
    db =
        (Write.update_by_id tx.id
          (λ row. record row {
            broadcast_at = some (p.rfc3339 (b.now t.calls));
            updated_at = p.rfc3339 (b.now t.calls);
          })
          t.db).1;
    calls = t.calls + 1;
  }
  settle tx (err _) t = t

  abbrev add :
      String × Result String → Result Outcomes × PoolManager → Result Outcomes × PoolManager
  add e (ok rest, t) = (ok (e ∷ rest), t)
  add e (err x, t) = (err x, t)

  added :
      BroadcastTx → List BroadcastTx → Result String × PoolManager → Result Outcomes × PoolManager
  unfolding settle
  added tx txs (r, t) = add (tx.id, r) (rebroadcast_all txs (settle tx r t))

  rebroadcast_all-step :
      (tx : BroadcastTx) (txs : List BroadcastTx) (s : PoolManager)
      → rebroadcast_all (tx ∷ txs) s ≡ added tx txs (broadcast_transaction tx.tx_hex s)
  unfolding rebroadcast_all added settle
  rebroadcast_all-step tx txs s = go (broadcast_transaction tx.tx_hex s) refl
    where
      go :
          (t : Result String × PoolManager)
          → broadcast_transaction tx.tx_hex s ≡ t
          → rebroadcast_all (tx ∷ txs) s ≡ added tx txs (broadcast_transaction tx.tx_hex s)
      go (ok _, t) e = ground (arith, e)
      go (err _, t) e = ground (arith, e)

  settle-halt_set :
      (tx : BroadcastTx) (r : Result String) (t : PoolManager)
      → settle tx r (record t { safe_mode = m }) ≡ record (settle tx r t) { safe_mode = m }
  unfolding settle
  settle-halt_set tx (ok _) t = refl
  settle-halt_set tx (err _) t = refl

  add-halt_set :
      (e : String × Result String) (x : Result Outcomes × PoolManager)
      → add e (halt_set m x) ≡ halt_set m (add e x)
  add-halt_set e (ok _, t) = refl
  add-halt_set e (err _, t) = refl

  nothing_left :
      (t : PoolManager)
      → rebroadcast_all [] (record t { safe_mode = m }) ≡ halt_set m (rebroadcast_all [] t)
  unfolding rebroadcast_all
  nothing_left t = refl

  rebroadcast_all-halt_set :
      (txs : List BroadcastTx) (s : PoolManager)
      → rebroadcast_all txs (record s { safe_mode = m }) ≡ halt_set m (rebroadcast_all txs s)
  unfolding added
  rebroadcast_all-halt_set [] s = nothing_left s
  rebroadcast_all-halt_set (tx ∷ txs) s =
      let (r, t) = broadcast_transaction tx.tx_hex s in
      rebroadcast_all-step tx txs (record s { safe_mode = m })
      ∙ ap (added tx txs) (broadcast_transaction-halt_set tx.tx_hex s)
      ∙ ap (λ u. add (tx.id, r) (rebroadcast_all txs u)) (settle-halt_set tx r t)
      ∙ ap (add (tx.id, r)) (rebroadcast_all-halt_set txs (settle tx r t))
      ∙ add-halt_set (tx.id, r) (rebroadcast_all txs (settle tx r t))
      ∙ ap (halt_set m) (sym (rebroadcast_all-step tx txs s))

  -- Safe mode has no effect on a rebroadcast: with the halt on or off, the same transactions go out, with
  -- the same outcomes, and the states differ in the halt only.
  pub rebroadcast_pending-halt_set :
      (s : PoolManager)
      → rebroadcast_pending (record s { safe_mode = m }) ≡ halt_set m (rebroadcast_pending s)
  unfolding rebroadcast_pending
  rebroadcast_pending-halt_set s =
      go
        (get_pending_rebroadcast (b.now s.calls) s.config.rebroadcast_interval_minutes
          s.config.network s.db)
        refl
    where
      go :
          (r : Result (List BroadcastTx) × Database)
          → get_pending_rebroadcast
              (b.now s.calls)
              s.config.rebroadcast_interval_minutes
              s.config.network
              s.db
            ≡ r
          → rebroadcast_pending (record s { safe_mode = m }) ≡ halt_set m (rebroadcast_pending s)
      go (ok txs, db) e =
          ground
            (arith, e, rebroadcast_all-halt_set txs (record s { db = db; calls = s.calls + 1 }))
      go (err _, db) e = ground (arith, e)
