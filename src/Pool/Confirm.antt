-- ===== src/Pool/Confirm.antt =====
-- src/pool/manager.rs: finding out which broadcast transactions are in a block. `fetch` is the indexer
-- that the spent transactions are asked from.
pub mod Seen
use broadcast_pool.Prelude.{
  ℕ, String, Bool, true, false, Option, none, some, List, [], ◌∷◌, map, if◌then◌else◌, is_empty,
  unwrap_or, Result, ok, err, ◌>>=◌, ◌>>◌, pure, gets, modify, attempt,
}
use broadcast_pool.Platform.{Platform}
use broadcast_pool.Models.{BroadcastTx}
use broadcast_pool.Transactions.{
  Transaction, Codec, extract_affected_scripthashes_opts, extract_output_scripthashes,
}
use broadcast_pool.Db.Write.{mark_confirmed}
use broadcast_pool.Db.Read.{list_broadcast_txs}
use broadcast_pool.Pool.{Backends, PoolManager, Manager, on_db, ask}
use broadcast_pool.Pool.Mempool.{notify}

-- A transaction's id, whether it is in a block, and the height that is written for it.
abbrev pub Confirmation : Type 0
Confirmation = String × (Bool × Option ℕ)

module _ ⦃c : Codec⦄ where
  abbrev announced : Result (List String) → PoolManager → PoolManager
  announced (ok shs) s = notify shs s
  announced (err e) s = s

  unfoldable pub notify_tx_confirmed :
      (String → Option Transaction) → String → PoolManager → PoolManager
  unfolding extract_output_scripthashes extract_affected_scripthashes_opts
  notify_tx_confirmed fetch tx_hex s =
      announced
        (if is_empty (unwrap_or s.config.indexer_url "")
          then extract_output_scripthashes tx_hex
          else extract_affected_scripthashes_opts fetch tx_hex false)
        s

  module _ ⦃p : Platform⦄ ⦃b : Backends⦄ where
    -- A transaction in a block. The height is the one of the chain's tip.
    abbrev pub in_block :
        (String → Option Transaction) → BroadcastTx → Result ℕ → Manager Confirmation
    in_block fetch tx (err e) = pure (tx.id, (true, none))
    in_block fetch tx (ok height) = do
      now ← ask b.now
      attempt (on_db (mark_confirmed now tx.id height))
      modify (notify_tx_confirmed fetch tx.tx_hex)
      pure (tx.id, (true, some height))

    abbrev pub probed :
        (String → Option Transaction) → BroadcastTx → Option Bool → Manager Confirmation
    probed fetch tx (some true) = do height ← ask b.rpc_height; in_block fetch tx height
    probed fetch tx (some false) = pure (tx.id, (false, none))
    probed fetch tx none = pure (tx.id, (false, none))

    unfoldable pub confirm_one : (String → Option Transaction) → BroadcastTx → Manager Confirmation
    unfolding mark_confirmed notify_tx_confirmed
    confirm_one fetch tx = elim tx.txid [
      | none ↦ pure (tx.id, (false, none))
      | some txid ↦ (do seen ← ask (λ n. b.rpc_transaction n txid); probed fetch tx seen)
    ]

    unfoldable pub confirm_all :
        (String → Option Transaction) → List BroadcastTx → Manager (List Confirmation)
    unfolding confirm_one
    confirm_all fetch [] = pure []
    confirm_all fetch (tx ∷ txs) =
        let rest = confirm_all fetch txs in do r ← confirm_one fetch tx; rs ← rest; pure (r ∷ rs)

    -- The indexer confirms nothing.
    abbrev pub by_indexer : List BroadcastTx → Manager (List Confirmation)
    by_indexer txs = do
      there ← gets (λ s. b.has_indexer s.calls)
      alive ← if there then ask b.indexer_alive else pure false
      pure (if alive then map (λ tx. (tx.id, (false, none))) txs else [])

    unfoldable pub check_confirmations : (String → Option Transaction) → Manager (List Confirmation)
    unfolding list_broadcast_txs confirm_all
    check_confirmations fetch = do
      network ← gets (λ s. s.config.network)
      now ← ask b.now
      txs ← on_db (list_broadcast_txs now (some "broadcast") network 1000)
      alive ← if b.has_rpc then ask b.rpc_alive else pure false
      if alive then confirm_all fetch txs else by_indexer txs
