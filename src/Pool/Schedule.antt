-- ===== src/Pool/Schedule.antt =====
-- The user's schedules of src/pool/manager.rs: at a time, by price, by a random delay; and the calls
-- that read, retry or remove one transaction.
pub mod Unsealed
pub mod Outcome
pub mod Triggers
use broadcast_pool.Prelude.{
  ℕ, ◌+◌, ◌*◌, ◌/◌, String, Bool, true, false, not, ◌&&◌, ◌||◌, ltb, leb, ◌==◌, Option, none, some,
  List, [], ◌∷◌, if◌then◌else◌, ok, err, ◌>>=◌, ◌>>◌, pure, bail, gets, modify, attempt, is_some,
  is_some_and, unwrap_or, or_else, str_eq, concat, codes, lower, max, String,
}
use broadcast_pool.Platform.{Platform}
use broadcast_pool.Models.{TxStatus, BroadcastTx, is_waiting, as_str, second}
use broadcast_pool.Db.Write
use broadcast_pool.Db.Write.{get_broadcast_tx_by_id, update_by_id}
use broadcast_pool.Db.Read.{column_is, list_broadcast_txs, get_price_triggered_pending}
use broadcast_pool.Pool.{Backends, Manager, on_db, ask}
use broadcast_pool.Pool.Mempool.{remove_pending_tx}
use broadcast_pool.Pool.Due.{
  price_of, is_user_scheduled_mode, enrich_tx_locktime, locktime_threshold,
}

-- price/mod.rs: any condition but "below" is read as "above".
unfoldable pub price_condition_met : ℕ → ℕ → String → Bool
price_condition_met current target condition =
    if str_eq condition "below" then leb current target else leb target current

-- `to_lowercase` of a text that is one of two words.
lower_is : String → String → Bool
lower_is s word = same (lower (codes s)) (codes word)
  where
    same : List ℕ → List ℕ → Bool
    same [] [] = true
    same [] (_ ∷ _) = false
    same (_ ∷ _) [] = false
    same (a ∷ as') (c ∷ cs) = a == c && same as' cs

unfoldable pub one_of : String → String → String → Option String
unfolding lower_is
one_of s first second =
    if lower_is s first then some first else if lower_is s second then some second else none

-- The test and the value agree on what counts: a price is due when its row's currency has a quote
-- that meets the row's condition.
unfoldable pub price_due : List (String × ℕ) → BroadcastTx → Bool
unfolding price_condition_met price_of
price_due prices tx = elim tx.target_price [
  | none ↦ false
  | some target ↦ elim (price_of (unwrap_or tx.price_currency "usd") prices) [
    | none ↦ false
    | some current ↦ price_condition_met current target (unwrap_or tx.price_condition "above")
  ]
]

module _ ⦃p : Platform⦄ ⦃b : Backends⦄ where
  unfoldable pub get_tx : String → Manager BroadcastTx
  get_tx id = do now ← ask b.now; on_db (get_broadcast_tx_by_id now id)

  unfoldable pub get_transaction : String → Manager BroadcastTx
  unfolding get_tx
  get_transaction id = do tx ← get_tx id; enrich_tx_locktime tx

  abbrev pub is_reschedule : BroadcastTx → Bool
  is_reschedule tx =
      is_some tx.broadcast_missed_at
      || is_some tx.defer_until
      || is_some tx.scheduled_time
      || column_is tx.schedule_trigger "price"
      || column_is tx.broadcast_mode "scheduled"
      || is_user_scheduled_mode tx.broadcast_mode

  abbrev pub before_locktime : BroadcastTx → ℕ → Bool
  before_locktime tx scheduled_time =
      is_some_and tx.nlocktime (λ n. ltb locktime_threshold n && ltb (scheduled_time / second) n)

  unfoldable pub schedule_at : String → ℕ → ℕ → Manager BroadcastTx
  unfolding get_tx get_transaction
  schedule_at id scheduled_time fee_rate = do
    tx ← get_tx id
    now ← ask b.now
    if leb scheduled_time now
        then bail "Scheduled time must be in the future"
        else if before_locktime tx scheduled_time
        then bail "Scheduled time cannot be before nLockTime"
        else (do
          let text = p.rfc3339 scheduled_time
          at ← ask b.now
          on_db (
              Write.update_reschedule at id text (if is_reschedule tx then some text else none)
                fee_rate)
          get_transaction id)

  abbrev price_checked : BroadcastTx → Manager (Unit {0})
  price_checked tx =
      if not (is_waiting tx.status)
      then bail (concat "Cannot set price trigger on transaction in status " (as_str tx.status))
      else if not (is_user_scheduled_mode tx.broadcast_mode)
      then bail
          "Price trigger scheduling is only available for manual/imported (pending) transactions"
      else if is_some_and tx.nlocktime (λ n. ltb 0 n)
      then bail "Price trigger scheduling is only available when nLockTime is disabled (0)"
      else pure tt

  abbrev word : Option String → String → Manager String
  word none e = bail e
  word (some s) e = pure s

  unfoldable pub schedule_by_price : String → ℕ → String → String → ℕ → Manager BroadcastTx
  unfolding get_tx get_transaction
  schedule_by_price id target_price price_currency price_condition fee_rate =
      if target_price == 0 then bail "Target price must be positive" else do
        currency ← word (one_of price_currency "eur" "usd") "price_currency must be eur or usd"
        condition ←
            word (one_of price_condition "above" "below") "price_condition must be above or below"
        tx ← get_tx id
        price_checked tx
        now ← ask b.now
        on_db (Write.update_price_schedule now id target_price currency condition fee_rate)
        get_transaction id

  -- An error of marking one row is logged, and the row does not count.
  unfoldable pub trigger_all : List (String × ℕ) → List BroadcastTx → Manager ℕ
  trigger_all prices [] = pure 0
  trigger_all prices (tx ∷ txs) =
      let rest = trigger_all prices txs in
      if price_due prices tx
      then (do
        now ← ask b.now
        marked ← attempt (on_db (Write.mark_due_from_price_trigger now tx.id))
        count ← rest
        pure (elim marked [ ok _ ↦ count + 1 | err _ ↦ count ]))
      else rest

  unfoldable pub check_price_triggers : List (String × ℕ) → Manager ℕ
  check_price_triggers prices = do
    network ← gets (λ s. s.config.network)
    now ← ask b.now
    txs ← on_db (get_price_triggered_pending now network)
    trigger_all prices txs

  -- The random draws `delay` and `fee` are arguments, given the bounds of their ranges. The statement
  -- is raw SQL.
  unfoldable pub schedule_transaction :
      (ℕ → ℕ → ℕ)
      → (ℕ → ℕ → ℕ)
      → String
      → Option ℕ
      → Option ℕ
      → Option ℕ
      → Option ℕ
      → Option ℕ
      → Manager BroadcastTx
  unfolding get_tx
  schedule_transaction delay fee id min_delay_hours max_delay_hours min_fee_rate max_fee_rate
        fixed =
      do
        config ← gets (λ s. s.config)
        let min_delay = unwrap_or min_delay_hours config.min_delay_hours
        let max_delay = unwrap_or max_delay_hours config.max_delay_hours
        let min_fee = unwrap_or min_fee_rate config.min_fee_rate
        let max_fee = unwrap_or max_fee_rate config.max_fee_rate
        let delay_hours = delay min_delay (max max_delay min_delay)
        let fee_rate = unwrap_or fixed (fee min_fee (max max_fee min_fee))
        start ← ask b.now
        now ← ask b.now
        on_db (
            update_by_id id (λ r. record r {
              status = "scheduled";
              scheduled_time = some (p.rfc3339 (start + delay_hours * 3600 * second));
              target_fee_rate = some fee_rate;
              updated_at = p.rfc3339 now;
            }))
        get_tx id

  unfoldable pub schedule_each :
      (ℕ → ℕ → ℕ) → (ℕ → ℕ → ℕ) → List BroadcastTx → Manager (List BroadcastTx)
  schedule_each delay fee [] = pure []
  schedule_each delay fee (tx ∷ txs) = do
    scheduled ← schedule_transaction delay fee tx.id none none none none none
    rest ← schedule_each delay fee txs
    pure (scheduled ∷ rest)

  unfoldable pub schedule_all_pending :
      (ℕ → ℕ → ℕ) → (ℕ → ℕ → ℕ) → String → Manager (List BroadcastTx)
  schedule_all_pending delay fee network = do
    now ← ask b.now
    pending ← on_db (list_broadcast_txs now (some "pending") network 1000)
    schedule_each delay fee pending

  unfoldable pub retry_failed_transaction : String → Manager BroadcastTx
  unfolding get_tx get_transaction
  retry_failed_transaction id = do
    tx ← get_tx id
    elim tx.status [
      | TxStatus.failed ↦ (do
        now ← ask b.now
        on_db (Write.reset_failed_to_scheduled now id)
        get_transaction id)
      | _ ↦ bail (concat "Transaction " (concat id " is not in failed state"))
    ]

  -- `computed` is the txid of the transaction's hex, if it decodes.
  unfoldable pub remove_transaction : (String → Option String) → String → Manager (Unit {0})
  unfolding get_tx
  remove_transaction computed id = do
    tx ← get_tx id
    removed ← on_db (Write.remove_broadcast_tx id)
    if removed == 0
        then bail "Transaction not found"
        else modify (λ s. elim (or_else tx.txid (computed tx.tx_hex)) [
          | none ↦ s
          | some txid ↦ (remove_pending_tx txid s).1
        ])
