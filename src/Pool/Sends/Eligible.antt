-- ===== src/Pool/Sends/Eligible.antt =====
-- Which rows `broadcast_due_transactions` of src/pool/manager.rs may send.
use broadcast_pool.Prelude.{
  ℕ, ◌+◌, String, Bool, true, false, ◌&&◌, ◌≡◌, refl, sym, subst, List, [], ◌∷◌, map, select, arith,
  ok, err, Result, ◌>>=◌, pure, after-bind, continue, Bool-cases, inl, inr, All, All-mono, str_eq,
  str_eq_iff, if◌then◌else◌,
}
use broadcast_pool.Platform.{Platform}
use broadcast_pool.Models.{BroadcastTx}
use broadcast_pool.Db.{Row, map_broadcast_row, decode_or_keep}
use broadcast_pool.Db.Read.{get_due_transactions}
use broadcast_pool.Db.Seal.{IsSealed, tampered-map_broadcast_row}
use broadcast_pool.Pool.{Backends, PoolManager}
use broadcast_pool.Pool.Due.{is_tx_due_for_broadcast, time_reached}
use broadcast_pool.Pool.Broadcast.{
  is_tampered, broadcast_all, filter_due, holds, broadcast_due_transactions,
}
use broadcast_pool.Pool.Quiet.{Same, Same-refl, Same-trans}
use broadcast_pool.Pool.Sends.{until_tampered, broadcast_all-sent, is_tx_due-Same}

All-map :
    {A B : Type 0} (P : B → Type 0) (f : A → B) (xs : List A)
    → All (λ x. P (f x)) xs
    → All P (map f xs)
All-map P f [] h = tt
All-map P f (x ∷ xs) h = (h.0, All-map P f xs h.1)

-- A selected entry passed the test.
All-select_test :
    {A : Type 0} (P : A → Type 0) (test : A → Bool) (xs : List A)
    → All (λ x. test x ≡ true → P x) xs
    → All P (select test xs)
All-select_test P test [] h = tt
All-select_test P test (x ∷ xs) h = elim (Bool-cases (test x)) [
  | inl e ↦ rw e (h.0 e, All-select_test P test xs h.1)
  | inr e ↦ rw e (All-select_test P test xs h.1)
]

-- Every row before the first tampered one is untampered.
All-until_tampered :
    (P : BroadcastTx → Type 0) (txs : List BroadcastTx)
    → All (λ tx. is_tampered tx ≡ false → P tx) txs
    → All P (until_tampered txs)
All-until_tampered P [] h = tt
All-until_tampered P (tx ∷ txs) h = elim (Bool-cases (is_tampered tx)) [
  | inl e ↦ rw e tt
  | inr e ↦ rw e (h.0 e, All-until_tampered P txs h.1)
]

module _ ⦃b : Backends⦄ where
  is_tx_due-time :
      (tx : BroadcastTx) (now : ℕ) (s : PoolManager)
      → (is_tx_due_for_broadcast tx now s).0 ≡ ok true
      → time_reached tx now ≡ true
  unfolding is_tx_due_for_broadcast
  is_tx_due-time tx now s h = ground arith

module _ ⦃p : Platform⦄ ⦃b : Backends⦄ where
  filter_due-Same :
      (txs : List BroadcastTx) (now : ℕ) (s : PoolManager) → Same s (filter_due txs now s).1
  unfolding filter_due
  filter_due-Same [] now s = Same-refl s
  filter_due-Same (tx ∷ txs) now s =
      after-bind (Same s) (filter_due txs now) _ (is_tx_due_for_broadcast tx now s).1
        (Same-trans (is_tx_due-Same tx now s) (filter_due-Same txs now _))
        (λ rest. Same-trans (is_tx_due-Same tx now s) (filter_due-Same txs now _))

  abbrev AllOk : (BroadcastTx → Type 0) → Result (List BroadcastTx) → Type 0
  AllOk Q (ok due) = All Q due
  AllOk Q (err _) = Unit

  keep-AllOk :
      (Q : BroadcastTx → Type 0) (tx : BroadcastTx) (r : Result Bool)
      (x : Result (List BroadcastTx)) (s : PoolManager)
      → (r ≡ ok true → Q tx)
      → AllOk Q x
      → AllOk Q (continue x (λ rest. pure (if holds r then tx ∷ rest else rest)) s).0
  keep-AllOk Q tx (ok true) (ok due) s h k = (h refl, k)
  keep-AllOk Q tx (ok false) (ok due) s h k = k
  keep-AllOk Q tx (err _) (ok due) s h k = k
  keep-AllOk Q tx r (err _) s h k = tt

  -- The rows that the filter keeps have reached their time.
  filter_due-All :
      (Q : BroadcastTx → Type 0) (txs : List BroadcastTx) (now : ℕ) (s : PoolManager)
      → All (λ tx. time_reached tx now ≡ true → Q tx) txs
      → AllOk Q (filter_due txs now s).0
  unfolding filter_due
  filter_due-All Q [] now s h = tt
  filter_due-All Q (tx ∷ txs) now s h =
      let t = (is_tx_due_for_broadcast tx now s).1 in
      keep-AllOk Q tx (is_tx_due_for_broadcast tx now s).0 (filter_due txs now t).0
        (filter_due txs now t).1 (λ e. h.0 (is_tx_due-time tx now s e))
        (filter_due-All Q txs now t h.1)

  -- A row that may go out now: scheduled, of the configured network, with an intact seal, and past
  -- its deferral or, without one, its scheduled time.
  pub record Eligible (s : PoolManager) (r : Row) : Type 0 where
    pub status : r.status ≡ "scheduled"
    pub network : r.network ≡ s.config.network
    pub sealed : IsSealed s.db.key r
    pub time : time_reached (map_broadcast_row (b.now s.calls) s.db.key r) (b.now s.calls) ≡ true

  -- The batch that the loop runs on, as a list of rows.
  candidates_All :
      (P : String → Type 0) (s : PoolManager)
      → All (λ r. Eligible s r → P (decode_or_keep s.db.key r.id r.tx_hex)) s.db.pool
      → All
          (λ tx. time_reached tx (b.now s.calls) ≡ true → is_tampered tx ≡ false → P tx.tx_hex)
          (map (map_broadcast_row (b.now s.calls) s.db.key) (
            select
              (λ r. str_eq r.status "scheduled" && str_eq r.network s.config.network)
              s.db.pool))
  unfolding map_broadcast_row
  candidates_All P s h = All-map _ _ _ (
      All-select_test _ _ s.db.pool (
        All-mono
          (λ r allowed picked due good. allowed (record {
            status = ground (arith, str_eq_iff r.status "scheduled");
            network = ground (arith, str_eq_iff r.network s.config.network);
            sealed = (tampered-map_broadcast_row (b.now s.calls) s.db.key r).0 (ground arith);
            time = due;
          }))
          s.db.pool h))

  batch : PoolManager → List BroadcastTx
  batch s =
      map (map_broadcast_row (b.now s.calls) s.db.key)
        (select (λ r. str_eq r.status "scheduled" && str_eq r.network s.config.network) s.db.pool)

  due-step :
      (s : PoolManager)
      → s.safe_mode ≡ false
      → broadcast_due_transactions s
        ≡ (filter_due (batch s) (b.now s.calls) >>= λ due. broadcast_all due (b.now s.calls))
            (record s { calls = s.calls + 1 })
  unfolding broadcast_due_transactions get_due_transactions batch
  due-step s active = simp active

  -- One round of the scheduler hands to a backend, besides what was sent before it, only transactions
  -- of eligible rows: whatever holds of the decoded transaction of each eligible row, and of what was
  -- sent before, holds of all that has been sent after it.
  pub broadcast_due_transactions-sent :
      (P : String → Type 0) (s : PoolManager)
      → All (λ r. Eligible s r → P (decode_or_keep s.db.key r.id r.tx_hex)) s.db.pool
      → All P s.sent
      → All P (broadcast_due_transactions s).1.sent
  unfolding broadcast_due_transactions batch
  broadcast_due_transactions-sent P s h k = elim (Bool-cases s.safe_mode) [
    | inl safe ↦ simp safe k
    | inr active ↦
        let now = b.now s.calls in
        let s' = record s { calls = s.calls + 1 } in
        let r = filter_due (batch s) now s' in
        let k' : All P r.1.sent = subst (All P) (sym (filter_due-Same (batch s) now s').sent) k in
        rw (due-step s active) (
          run r.0 r.1 k' (
            filter_due-All (λ tx. is_tampered tx ≡ false → P tx.tx_hex) (batch s) now s'
              (candidates_All P s h)))
  ]
    where
      run :
          (x : Result (List BroadcastTx)) (t : PoolManager)
          → All P t.sent
          → AllOk (λ tx. is_tampered tx ≡ false → P tx.tx_hex) x
          → All P (continue x (λ due. broadcast_all due (b.now s.calls)) t).1.sent
      run (ok due) t k' h' =
          broadcast_all-sent P due (b.now s.calls) t (All-until_tampered (λ tx. P tx.tx_hex) due h')
            k'
      run (err _) t k' h' = k'
