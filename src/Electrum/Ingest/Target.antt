-- ===== src/Electrum/Ingest/Target.antt =====
-- The heights that armed Liana transactions wait for (src/electrum_server/mod.rs).
use broadcast_pool.Prelude.{
  ℕ, ◌+◌, ◌-◌, ◌<◌, ◌^◌, min, String, true, none, some, ok, trim, ◌≡◌, ◌≢◌, refl, ◌∙◌, ap, arith,
  length, unwrap_or, or_else, ltb, if◌then◌else◌,
}
use broadcast_pool.Platform.{Platform, Decodes}
use broadcast_pool.Models.{BroadcastTx}
use broadcast_pool.Transactions.{Transaction, Codec, decode_tx}
use broadcast_pool.Db.{find}
use broadcast_pool.Db.Write.{get_broadcast_tx_by_id}
use broadcast_pool.Pool.{
  BroadcastMode, immediate, scheduled, by_block, manual, Backends, PoolManager,
}
use broadcast_pool.Pool.Mempool.{store_pending_tx}
use broadcast_pool.Pool.Broadcast.{import_transaction}
use broadcast_pool.Electrum.Plan.{resolve_ingest_plan}
use broadcast_pool.Electrum.Ingest.{
  Fresh, handle_broadcast, capture_virtual_target, retain, store_pending_outputs,
}
use broadcast_pool.Electrum.Ingest.Kept.{
  planned, at_import, import, broadcast-decoded, decoded-retained, stored, retain-db,
}

not_now : (m : BroadcastMode) → m ≡ by_block → m ≢ immediate
not_now m e k = ground arith

module _ ⦃p : Platform⦄ ⦃c : Codec⦄ ⦃b : Backends⦄ where
  retain-config :
      (mode : BroadcastMode) (txid hex : String) (tx : BroadcastTx) (s : PoolManager)
      → (retain mode txid hex tx s).1.config ≡ s.config
  unfolding retain store_pending_outputs store_pending_tx
  retain-config immediate txid hex tx s = refl
  retain-config scheduled txid hex tx s = refl
  retain-config by_block txid hex tx s = refl
  retain-config manual txid hex tx s = refl

  armed-plan :
      (fresh : Fresh) (hex : String) (tx : Transaction) (s : PoolManager)
      → s.config.liana_virtual_block.enabled ≡ true
      → planned fresh "liana" hex tx s ≡ (by_block, none)
  unfolding resolve_ingest_plan
  armed-plan fresh hex tx s e = rw e refl

  -- What one armed ingest does: its lock is the served height, which then goes up.
  armed-capture :
      (fresh : Fresh) (hex : String) (tx : Transaction) (s : PoolManager)
      → s.config.liana_virtual_block.enabled ≡ true
      → ((at_import fresh "liana" hex tx s).0 ≡ some s.config.liana_virtual_block.target_height)
        × ((at_import fresh "liana" hex tx s).1.config.liana_virtual_block
            ≡ record s.config.liana_virtual_block {
              target_height = min (s.config.liana_virtual_block.target_height + 2) (2 ^ 64 - 1);
            })
  unfolding capture_virtual_target
  armed-capture fresh hex tx s e = rw (armed-plan fresh hex tx s e, e) (refl, refl)

  import-config :
      (fresh : Fresh) (hex : String) (tx : Transaction) (s : PoolManager)
      → (import fresh "liana" hex tx s).1.config ≡ (at_import fresh "liana" hex tx s).1.config
  unfolding import_transaction
  import-config fresh hex tx s = refl

  -- The row's lock and the served block of the configuration after one armed ingest.
  armed_ingest :
      (laws : Decodes p) (fresh : Fresh) (hex : String) (tx : Transaction) (s : PoolManager)
      → ((n : ℕ) → length (fresh.nonce n) ≡ 12)
      → find fresh.id s.db.pool ≡ none
      → decode_tx hex ≡ ok tx
      → s.config.liana_virtual_block.target_height < 2 ^ 63
      → tx.lock_time < 2 ^ 32
      → s.config.liana_virtual_block.enabled ≡ true
      → ((now : ℕ) × ((row : BroadcastTx) × (((get_broadcast_tx_by_id now fresh.id
                  (handle_broadcast fresh "liana" hex s).1.db).0
                ≡ ok row)
              × (row.nlocktime ≡ some s.config.liana_virtual_block.target_height))))
        × ((handle_broadcast fresh "liana" hex s).1.config.liana_virtual_block
            ≡ record s.config.liana_virtual_block {
              target_height = min (s.config.liana_virtual_block.target_height + 2) (2 ^ 64 - 1);
            })
  armed_ingest laws fresh hex tx s sized free e low own armed =
      let h = trim hex in
      let plan = armed-plan fresh h tx s armed in
      let (im, (done, (read, same))) = stored fresh "liana" h tx s laws sized free low own in
      let now = b.now (at_import fresh "liana" h tx s).1.calls in
      let s' = (import fresh "liana" h tx s).1 in
      let later = not_now (planned fresh "liana" h tx s).0 (ap (λ q. q.0) plan) in
      let kept = retain-db (planned fresh "liana" h tx s).0 (c.txid tx) h im s' later in
      let (target, block) = armed-capture fresh h tx s armed in
      rw (broadcast-decoded fresh "liana" hex tx s e, decoded-retained fresh "liana" h tx s im done)
        (
          (
            now,
            (
              im,
              (
                ap (λ d. (get_broadcast_tx_by_id now fresh.id d).0) kept ∙ read,
                ap (λ r. r.nlocktime) same
                    ∙ ap
                        (λ o. some (
                          unwrap_or
                            (or_else o (if ltb 0 tx.lock_time then some tx.lock_time else none)) 0))
                        target,
              ),
            ),
          ),
          ap (λ g. g.liana_virtual_block)
                (retain-config (planned fresh "liana" h tx s).0 (c.txid tx) h im s'
                  ∙ import-config fresh h tx s)
              ∙ block,
        )

  -- With codecs that decode what they encode, nonces of 12 bytes, fresh row ids and transactions
  -- that decode, with locks below 2^32, two Liana transactions in a row wait for two heights, where
  -- the virtual block is armed: the armed one, and the one two above it, as long as that is below
  -- 2^63.
  pub armed-Distinct :
      (laws : Decodes p) (first second : Fresh) (hex hex' : String) (tx tx' : Transaction)
      (s : PoolManager)
      → ((n : ℕ) → length (first.nonce n) ≡ 12)
      → ((n : ℕ) → length (second.nonce n) ≡ 12)
      → find first.id s.db.pool ≡ none
      → find second.id (handle_broadcast first "liana" hex s).1.db.pool ≡ none
      → decode_tx hex ≡ ok tx
      → decode_tx hex' ≡ ok tx'
      → s.config.liana_virtual_block.enabled ≡ true
      → s.config.liana_virtual_block.target_height + 2 < 2 ^ 63
      → tx.lock_time < 2 ^ 32
      → tx'.lock_time < 2 ^ 32
      → let s' = (handle_broadcast first "liana" hex s).1 in
        let s'' = (handle_broadcast second "liana" hex' s').1 in
        (now : ℕ) × ((now' : ℕ) × ((row : BroadcastTx) × ((row' : BroadcastTx)
              × (((get_broadcast_tx_by_id now first.id s'.db).0 ≡ ok row)
                  × (((get_broadcast_tx_by_id now' second.id s''.db).0 ≡ ok row')
                      × ((row.nlocktime ≡ some s.config.liana_virtual_block.target_height)
                          × (row'.nlocktime
                              ≡ some (s.config.liana_virtual_block.target_height + 2))))))))
  armed-Distinct laws first second hex hex' tx tx' s sized sized' free free' e e' armed small own
        own' =
      let ((now, (row, (read, lock))), block) =
        armed_ingest laws first hex tx s sized free e (omega (arith, small)) own armed in
      let s' = (handle_broadcast first "liana" hex s).1 in
      let still = ap (λ l. l.enabled) block ∙ armed in
      let raised : min (s.config.liana_virtual_block.target_height + 2) (2 ^ 64 - 1)
          ≡ s.config.liana_virtual_block.target_height + 2 =
        omega arith in
      let second_target = ap (λ l. l.target_height) block ∙ raised in
      let ((now', (row', (read', lock'))), block') =
        armed_ingest laws second hex' tx' s' sized' free' e' (omega (arith, small, second_target))
          own' still in
      (now, (now', (row, (row', (read, (read', (lock, lock' ∙ ap some second_target)))))))
