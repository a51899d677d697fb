-- ===== src/Pool/Sends/Settles.antt =====
-- What a broadcast of src/pool/manager.rs leaves in the table.
use broadcast_pool.Prelude.{
  ℕ, String, true, false, ◌≡◌, refl, ◌∙◌, ap, Option, none, some, List, [], ◌∷◌, str_eq,
  if◌then◌else◌, arith, Result, ok, err, unwrap_or, inl, inr, Bool-cases,
}
use mathlib.Core.Option
use broadcast_pool.Platform.{Platform}
use broadcast_pool.Models.{BroadcastTx}
use broadcast_pool.Db.{Row, Database, find, reseal_row_mac}
use broadcast_pool.Db.Write
use broadcast_pool.Db.Write.{update_tx_status, update_by_id}
use broadcast_pool.Db.Find.{
  find-update_where, find-update_other, find-reseal_row_mac, find-reseal_other,
}
use broadcast_pool.Pool.{Backends, PoolManager}
use broadcast_pool.Pool.Broadcast.{
  is_retriable_broadcast_error, broadcast_transaction, check_locktime, mark_broadcast, announce,
  record_broadcast, after_broadcast, broadcast_one,
}
use broadcast_pool.Pool.Mempool.{remove_pending_tx}
use broadcast_pool.Pool.Sends.{check_locktime-Same}

-- The status and the txid of a row.
abbrev pub standing : Row → String × Option String
standing r = (r.status, r.txid)

abbrev standing_at : String → List Row → Option (String × Option String)
standing_at id rs = Option.map standing (find id rs)

-- What an outcome makes of them: a txid means broadcast, an error that may pass changes nothing, any
-- other error is a failure.
abbrev pub settled : Result String → String × Option String → String × Option String
settled (ok txid) old = ("broadcast", some txid)
settled (err e) old = if is_retriable_broadcast_error e then old else ("failed", old.1)

module _ ⦃p : Platform⦄ (now : ℕ) (id : String) (db : Database) where
  updated_standing :
      (f : Row → Row) (g : String × Option String → String × Option String)
      → ((r : Row) → (f r).id ≡ r.id)
      → ((r : Row) → standing (f r) ≡ g (standing r))
      → standing_at id ((reseal_row_mac id (update_by_id id f db).1).1.pool)
        ≡ Option.map g (standing_at id db.pool)
  updated_standing f g keeps does =
      find-reseal_row_mac standing (λ r m. refl) id (update_by_id id f db).1
      ∙ ap (Option.map standing) (find-update_where id f keeps db.pool)
      ∙ each (find id db.pool)
    where
      each :
          (o : Option Row)
          → Option.map standing (Option.map f o) ≡ Option.map g (Option.map standing o)
      each none = refl
      each (some r) = ap some (does r)

  updated_other :
      (j : String) (f : Row → Row)
      → ((r : Row) → (f r).id ≡ r.id)
      → str_eq id j ≡ false
      → find j ((reseal_row_mac id (update_by_id id f db).1).1.pool) ≡ find j db.pool
  updated_other j f keeps other =
      find-reseal_other id j (update_by_id id f db).1 other
      ∙ find-update_other id j _ f (λ r h. h) keeps other db.pool

module _ ⦃p : Platform⦄ ⦃b : Backends⦄ where
  db-broadcast_transaction :
      (hex : String) (s : PoolManager) → (broadcast_transaction hex s).1.db ≡ s.db
  unfolding broadcast_transaction
  db-broadcast_transaction hex s = ground arith

  -- Whatever holds of the table that the outcome's statement leaves holds after the whole call.
  db-record_broadcast :
      (tx : BroadcastTx) (txid : String) (s : PoolManager)
      → (record_broadcast tx txid s).1.db
        ≡ (Write.mark_broadcast (b.now s.calls) tx.id txid (unwrap_or tx.target_fee_rate 0) s.db).1
  unfolding record_broadcast mark_broadcast announce remove_pending_tx
  db-record_broadcast tx txid s = ground arith

  standing-after_broadcast :
      (tx : BroadcastTx) (r : Result String) (s : PoolManager)
      → standing_at tx.id (after_broadcast tx r s).1.db.pool
        ≡ Option.map (settled r) (standing_at tx.id s.db.pool)
  unfolding after_broadcast update_tx_status Write.mark_broadcast
  standing-after_broadcast tx (ok txid) s =
      ap (λ d. standing_at tx.id d.pool) (db-record_broadcast tx txid s)
      ∙ updated_standing (b.now s.calls) tx.id s.db _ (settled (ok txid)) (λ r. refl) (λ r. refl)
  standing-after_broadcast tx (err e) s = elim (Bool-cases (is_retriable_broadcast_error e)) [
    | inl passing ↦ simp passing (same (standing_at tx.id s.db.pool) passing)
    | inr lasting ↦ simp lasting (
        updated_standing (b.now s.calls) tx.id s.db _ (settled (err e)) (λ r. refl)
          (λ r. rw lasting refl))
  ]
    where
      same :
          (o : Option (String × Option String))
          → is_retriable_broadcast_error e ≡ true
          → o ≡ Option.map (settled (err e)) o
      same none passing = refl
      same (some x) passing = rw passing refl

  other-after_broadcast :
      (tx : BroadcastTx) (r : Result String) (j : String) (s : PoolManager)
      → str_eq tx.id j ≡ false
      → find j (after_broadcast tx r s).1.db.pool ≡ find j s.db.pool
  unfolding after_broadcast update_tx_status Write.mark_broadcast
  other-after_broadcast tx (ok txid) j s other =
      ap (λ d. find j d.pool) (db-record_broadcast tx txid s)
      ∙ updated_other (b.now s.calls) tx.id s.db j _ (λ r. refl) other
  other-after_broadcast tx (err e) j s other = elim (Bool-cases (is_retriable_broadcast_error e)) [
    | inl passing ↦ simp passing refl
    | inr lasting ↦ simp lasting (updated_other (b.now s.calls) tx.id s.db j _ (λ r. refl) other)
  ]

  -- The call ends as its last statement does, when it reports an outcome.
  reported :
      (tx : BroadcastTx) (now : ℕ) (out : Result String) (s : PoolManager)
      → (broadcast_one tx now s).0 ≡ ok ((tx.id, out) ∷ [])
      → let t = broadcast_transaction tx.tx_hex (check_locktime tx.nlocktime s).1 in
        (t.0 ≡ out) × ((broadcast_one tx now s).1 ≡ (after_broadcast tx t.0 t.1).1)
  unfolding broadcast_one
  reported tx now out s h = ground arith

  -- When the loop reports an outcome for a row: the row, if it is in the table, has the status
  -- "broadcast" and the txid after a success, stays as it was in both after an error that may pass,
  -- and has the status "failed" after any other; every row under another id is as before.
  pub broadcast_one-settles :
      (tx : BroadcastTx) (now : ℕ) (out : Result String) (s : PoolManager) (j : String)
      → (broadcast_one tx now s).0 ≡ ok ((tx.id, out) ∷ [])
      → str_eq tx.id j ≡ false
      → (standing_at tx.id (broadcast_one tx now s).1.db.pool
          ≡ Option.map (settled out) (standing_at tx.id s.db.pool))
        × (find j (broadcast_one tx now s).1.db.pool ≡ find j s.db.pool)
  broadcast_one-settles tx now out s j h other =
      let c = (check_locktime tx.nlocktime s).1 in
      let t = broadcast_transaction tx.tx_hex c in
      let (outcome, ends) = reported tx now out s h in
      let before : t.1.db ≡ s.db =
        db-broadcast_transaction tx.tx_hex c ∙ (check_locktime-Same tx.nlocktime s).db in
      (
        ap (λ u. standing_at tx.id u.db.pool) ends
            ∙ standing-after_broadcast tx t.0 t.1
            ∙ ap (λ d. Option.map (settled t.0) (standing_at tx.id d.pool)) before
            ∙ ap (λ r. Option.map (settled r) (standing_at tx.id s.db.pool)) outcome,
        ap (λ u. find j u.db.pool) ends
            ∙ other-after_broadcast tx t.0 j t.1 other
            ∙ ap (λ d. find j d.pool) before,
      )
