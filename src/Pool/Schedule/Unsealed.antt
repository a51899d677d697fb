-- ===== src/Pool/Schedule/Unsealed.antt =====
-- The seal after `schedule_transaction` of src/pool/manager.rs.
use broadcast_pool.Prelude.{
  ℕ, ◌+◌, ◌*◌, max, String, true, false, ◌≡◌, ◌≢◌, refl, sym, ◌∙◌, ap, Option, some, arith, ◌⊎◌, ok,
  unwrap_or, str_eq, str_eq_iff, Bool-cases, inl, inr,
}
use mathlib.Core.Option
use broadcast_pool.Platform.{Platform}
use broadcast_pool.Models.{BroadcastTx, second}
use broadcast_pool.Db.{Row, by_id, find, update_where, expected_mac, map_broadcast_row, same_text}
use broadcast_pool.Db.Find.{find-update_where}
use broadcast_pool.Db.Write.{get_broadcast_tx_by_id}
use broadcast_pool.Db.Seal.{IsSealed}
use broadcast_pool.Pool.{Backends, PoolManager}
use broadcast_pool.Pool.Schedule.{schedule_transaction, get_tx}

module _ ⦃p : Platform⦄ ⦃b : Backends⦄ (delay fee : ℕ → ℕ → ℕ) (id : String)
    (min_delay max_delay min_fee max_fee fixed : Option ℕ) (s : PoolManager) where
  -- The time that the call draws, as it is stored.
  abbrev pub drawn_time : String
  drawn_time =
      let low = unwrap_or min_delay s.config.min_delay_hours in
      let high = unwrap_or max_delay s.config.max_delay_hours in
      p.rfc3339 (b.now s.calls + delay low (max high low) * 3600 * second)

  -- The columns that the MAC covers, after the call.
  abbrev pub rescheduled : Row → Row
  rescheduled r = record r { status = "scheduled"; scheduled_time = some drawn_time }

  unequal :
      (r : Row)
      → IsSealed s.db.key r
      → expected_mac s.db.key (rescheduled r) ≢ expected_mac s.db.key r
      → same_text r.row_mac (expected_mac s.db.key (rescheduled r)) ≡ false
  unfolding expected_mac
  unequal r sealed differs = simp sealed (go (Bool-cases _))
    where
      go :
          (str_eq (expected_mac s.db.key r) (expected_mac s.db.key (rescheduled r)) ≡ true)
            ⊎ (str_eq (expected_mac s.db.key r) (expected_mac s.db.key (rescheduled r)) ≡ false)
          → str_eq (expected_mac s.db.key r) (expected_mac s.db.key (rescheduled r)) ≡ false
      go (inl e) = absurd (differs (sym ((str_eq_iff _ _).0 e)))
      go (inr e) = e

  -- A sealed row for which the call finds a time is read back as tampered, unless the MAC of the new
  -- status and time happens to be the old one.
  pub schedule_transaction-tampered :
      (r : Row)
      → find id s.db.pool ≡ some r
      → IsSealed s.db.key r
      → expected_mac s.db.key (rescheduled r) ≢ expected_mac s.db.key r
      → (tx : BroadcastTx) × (((schedule_transaction delay fee id min_delay max_delay min_fee
              max_fee fixed s).0
            ≡ ok tx)
          × (tx.tampered ≡ some true))
  unfolding schedule_transaction get_tx get_broadcast_tx_by_id map_broadcast_row expected_mac
  schedule_transaction-tampered r here sealed differs = (
    map_broadcast_row (b.now (s.calls + 1 + 1)) s.db.key (change r),
    (ground (arith, updated), ground (arith, unequal r sealed differs)),
  )
    where
      change : Row → Row
      change x = record x {
        status = "scheduled";
        scheduled_time = some drawn_time;
        target_fee_rate = some (
            unwrap_or fixed (
              fee (unwrap_or min_fee s.config.min_fee_rate) (
                max (unwrap_or max_fee s.config.max_fee_rate)
                  (unwrap_or min_fee s.config.min_fee_rate))));
        updated_at = p.rfc3339 (b.now (s.calls + 1));
      }

      updated : find id (update_where (by_id id) change s.db.pool) ≡ some (change r)
      updated = find-update_where id change (λ x. refl) s.db.pool ∙ ap (Option.map change) here
