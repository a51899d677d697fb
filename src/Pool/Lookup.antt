-- ===== src/Pool/Lookup.antt =====
-- src/pool/manager.rs: finding a transaction by its id, and filling the virtual mempool at the start.
use broadcast_pool.Prelude.{
  ℕ, ◌+◌, String, false, Option, none, some, List, [], ◌∷◌, ◌++◌, or_else, trim, Result, ok, err,
  ◌>>=◌, bail, gets, lower_text,
}
use broadcast_pool.Platform.{Platform}
use broadcast_pool.Models.{BroadcastTx}
use broadcast_pool.Transactions.{
  Transaction, Codec, alternate_txid_format, compute_txid, extract_outputs,
  extract_affected_scripthashes_opts,
}
use broadcast_pool.Db.Read.{list_broadcast_txs, get_tx_hex_by_txid}
use broadcast_pool.Pool.{Backends, PoolManager, Manager, PendingTxOutput, on_db, ask}
use broadcast_pool.Pool.Mempool.{get_pending_tx_hex, store_pending_tx}

abbrev found : Result (Option String) → Option String
found (ok o) = o
found (err e) = none

module _ ⦃p : Platform⦄ where
  -- An error of the database counts as nothing found.
  abbrev in_database : String → PoolManager → Option String
  in_database txid s = found (get_tx_hex_by_txid txid s.db).0

  abbrev pub or_alternate : (String → Option String) → String → Option String
  or_alternate look txid =
      or_else (look txid) (elim (alternate_txid_format txid) [ none ↦ none | some alt ↦ look alt ])

  unfoldable pub lookup_tx_hex : String → PoolManager → Option String
  unfolding trim lower_text alternate_txid_format get_pending_tx_hex get_tx_hex_by_txid
  lookup_tx_hex txid s =
      let normalized = lower_text (trim txid) in
      or_else (or_alternate (λ id. get_pending_tx_hex id s) normalized)
        (or_alternate (λ id. in_database id s) normalized)

  module _ ⦃c : Codec⦄ where
    abbrev id_of : BroadcastTx → Result String
    id_of tx = elim tx.txid [ none ↦ compute_txid tx.tx_hex | some id ↦ ok id ]

    abbrev outputs_or_none : String → List PendingTxOutput
    outputs_or_none tx_hex = elim (extract_outputs tx_hex) [ ok os ↦ os | err e ↦ [] ]

    -- One row: its id, the script hashes of its outputs and of what it spends, and its outputs. A
    -- transaction that does not decode is left out.
    abbrev rehydrate :
        (String → Option Transaction)
        → BroadcastTx
        → PoolManager
        → ℕ × PoolManager
        → ℕ × PoolManager
    rehydrate fetch tx s skipped = elim (id_of tx) [
      | err e ↦ skipped
      | ok txid ↦ elim (extract_affected_scripthashes_opts fetch tx.tx_hex false) [
        | err e ↦ skipped
        | ok scripthashes ↦
            (1, store_pending_tx txid tx.tx_hex scripthashes (outputs_or_none tx.tx_hex) s)
      ]
    ]

    unfoldable pub rehydrate_all :
        (String → Option Transaction) → List BroadcastTx → ℕ → PoolManager → ℕ × PoolManager
    unfolding compute_txid extract_affected_scripthashes_opts extract_outputs store_pending_tx
    rehydrate_all fetch [] count s = (count, s)
    rehydrate_all fetch (tx ∷ txs) count s =
        let (n, s') = rehydrate fetch tx s (0, s) in rehydrate_all fetch txs (count + n) s'

    module _ ⦃b : Backends⦄ where
      -- `fetch` is the indexer at the configured address.
      unfoldable pub load_pending_from_db : (String → Option Transaction) → Manager ℕ
      unfolding list_broadcast_txs rehydrate_all
      load_pending_from_db fetch = do
        network ← gets (λ s. s.config.network)
        url ← gets (λ s. s.config.indexer_url)
        elim url [
          | none ↦ bail "No indexer configured for pending tx rehydration"
          | some _ ↦ (do
            now ← ask b.now
            waiting ← on_db (list_broadcast_txs now (some "pending") network 10_000)
            due ← on_db (list_broadcast_txs now (some "scheduled") network 10_000)
            (λ s. let (n, s') = rehydrate_all fetch (waiting ++ due) 0 s in (ok n, s')))
        ]
