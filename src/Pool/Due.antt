-- ===== src/Pool/Due.antt =====
-- When a row may go out: the nLockTime gate, the due test and the fields that the API shows, of
-- src/pool/manager.rs.
use broadcast_pool.Prelude.{
  str_eq, List, [], ◌∷◌, ℕ, ◌-◌, String, Bool, true, false, not, ◌&&◌, ◌||◌, ltb, leb, Option, none,
  some, if◌then◌else◌, ◌>>=◌, Result, ok, err, pure, gets, attempt, is_some, is_some_and,
}
use broadcast_pool.Models.{TxStatus, BroadcastTx, is_waiting, is_emitted}
use broadcast_pool.Db.Read.{column_is}
use broadcast_pool.Pool.{Backends, Manager}
use broadcast_pool.Pool.Health.{check_block_height, get_median_time_past_cached}

abbrev pub locktime_threshold : ℕ
locktime_threshold = 500_000_000

-- A map from currency to price.
unfoldable pub price_of : String → List (String × ℕ) → Option ℕ
price_of currency [] = none
price_of currency ((c, v) ∷ m) = if str_eq c currency then some v else price_of currency m

unfoldable pub is_user_scheduled_mode : Option String → Bool
is_user_scheduled_mode mode = column_is mode "manual" || column_is mode "imported"

abbrev pub positive : Option ℕ → Option ℕ
positive none = none
positive (some n) = if ltb 0 n then some n else none

abbrev pub reached : ℕ → Option ℕ → Bool
reached n none = false
reached n (some height) = leb n height

unfoldable pub tx_has_broadcast_schedule : BroadcastTx → Bool
unfolding is_user_scheduled_mode
tx_has_broadcast_schedule tx =
    column_is tx.broadcast_mode "scheduled"
    || is_user_scheduled_mode tx.broadcast_mode
    || is_some tx.scheduled_time
    || is_some tx.defer_until
    || is_some tx.broadcast_missed_at
    || column_is tx.schedule_trigger "price"

unfoldable pub tx_can_reschedule : BroadcastTx → Bool
unfolding tx_has_broadcast_schedule
tx_can_reschedule tx = is_waiting tx.status && tx_has_broadcast_schedule tx

module _ ⦃b : Backends⦄ where
  -- Above the threshold an nLockTime is a median time past, otherwise a block height.
  abbrev gate : ℕ → Manager Bool
  gate n =
      if ltb locktime_threshold n
      then (do mtp ← get_median_time_past_cached; pure (leb n mtp))
      else (do height ← check_block_height; pure (reached n height))

  unfoldable pub is_locktime_satisfied : Option ℕ → Manager Bool
  is_locktime_satisfied nlocktime = elim (positive nlocktime) [ none ↦ pure true | some n ↦ gate n ]

  -- A deferral, if there is one, takes the place of the scheduled time.
  abbrev pub time_reached : BroadcastTx → ℕ → Bool
  time_reached tx now = elim tx.defer_until [
    | some t ↦ not (ltb now t)
    | none ↦ is_some_and tx.scheduled_time (λ t. leb t now)
  ]

  abbrev waits_for_price : BroadcastTx → Bool
  waits_for_price tx =
      column_is tx.schedule_trigger "price"
      && (elim tx.status [ TxStatus.pending ↦ true | _ ↦ false ])

  unfoldable pub is_tx_due_for_broadcast : BroadcastTx → ℕ → Manager Bool
  is_tx_due_for_broadcast tx now = if waits_for_price tx then pure false else do
    locktime_ok ← is_locktime_satisfied tx.nlocktime
    pure (time_reached tx now && locktime_ok)

  -- The cached quote for a price trigger, if its currency has one; without a cache the field stays.
  abbrev quoted : Option (List (String × ℕ)) → BroadcastTx → Option ℕ
  quoted cached tx =
      if column_is tx.schedule_trigger "price"
      then (elim tx.price_currency [
        | none ↦ tx.current_btc_price
        | some currency ↦ elim cached [
          | none ↦ tx.current_btc_price
          | some prices ↦ price_of currency prices
        ]
      ])
      else tx.current_btc_price

  -- The fields that do not depend on the chain.
  abbrev cleared : Option (List (String × ℕ)) → BroadcastTx → BroadcastTx
  cleared cached tx = record tx {
    current_btc_price = quoted cached tx;
    locktime_waiting = none;
    locktime_deferred = some (is_some tx.broadcast_missed_at && not (is_emitted tx.status));
    can_reschedule = some (not (is_emitted tx.status) && tx_can_reschedule tx);
    chain_mtp = none;
    locktime_target = none;
    locktime_remaining_secs = none;
    locktime_kind = none;
    locktime_remaining_blocks = none;
    locktime_satisfied = none;
  }

  abbrev waiting : BroadcastTx → Bool → Option Bool
  waiting tx satisfied = some (not (is_emitted tx.status) && is_waiting tx.status && not satisfied)

  abbrev with_height : ℕ → Option ℕ → BroadcastTx → BroadcastTx
  with_height n none tx = tx
  with_height n (some height) tx = record tx {
    locktime_satisfied = some (leb n height);
    locktime_remaining_blocks = some (n - height);
    locktime_waiting = waiting tx (leb n height);
  }

  abbrev with_mtp : ℕ → Result ℕ → BroadcastTx → BroadcastTx
  with_mtp n (err _) tx = tx
  with_mtp n (ok mtp) tx = record tx {
    chain_mtp = some mtp;
    locktime_satisfied = some (leb n mtp);
    locktime_remaining_secs = some (n - mtp);
    locktime_waiting = waiting tx (leb n mtp);
  }

  abbrev with_locktime : ℕ → BroadcastTx → Manager BroadcastTx
  with_locktime n tx =
      if ltb n locktime_threshold
      then (do
        height ← gets (λ s. s.chain_health.height)
        pure (
            with_height n height
              (record tx { locktime_target = some n; locktime_kind = some "height" })))
      else (do
        mtp ← attempt get_median_time_past_cached
        pure (with_mtp n mtp (record tx { locktime_target = some n; locktime_kind = some "time" })))

  unfoldable pub enrich_tx_locktime : BroadcastTx → Manager BroadcastTx
  enrich_tx_locktime tx = do
    cached ← gets (λ s. s.cached_prices)
    elim (positive tx.nlocktime) [
      | none ↦ pure (record (cleared cached tx) { locktime_waiting = some false })
      | some n ↦ with_locktime n (cleared cached tx)
    ]
