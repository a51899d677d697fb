-- ===== src/Pool/Mempool.antt =====
-- The virtual mempool of src/pool/manager.rs: a hash map from txid to the retained transaction, as an
-- association list with one entry for a txid.
pub mod Occurs
pub mod Refines
pub mod Index
use broadcast_pool.Prelude.{
  ℕ, ◌+◌, String, Option, none, some, List, [], ◌∷◌, ◌++◌, map, str_eq, if◌then◌else◌, select,
}
use mathlib.Core.Option
use broadcast_pool.Pool.{PendingTxOutput, PendingTxInfo, PoolManager}
use broadcast_pool.Pool.Safe.{contains_text}

abbrev pub Pending : Type 0
Pending = List (String × PendingTxInfo)

unfoldable pub lookup : String → Pending → Option PendingTxInfo
lookup txid [] = none
lookup txid ((j, info) ∷ m) = if str_eq j txid then some info else lookup txid m

unfoldable pub insert : String → PendingTxInfo → Pending → Pending
insert txid info [] = (txid, info) ∷ []
insert txid info ((j, old) ∷ m) =
    if str_eq j txid then (txid, info) ∷ m else (j, old) ∷ insert txid info m

unfoldable pub remove : String → Pending → Pending
remove txid [] = []
remove txid ((j, info) ∷ m) =
    let rest = remove txid m in if str_eq j txid then rest else (j, info) ∷ rest

abbrev pub notify : List String → PoolManager → PoolManager
notify shs s = record s { scripthash_notifications = s.scripthash_notifications ++ shs }

unfoldable pub store_pending_tx :
    String → String → List String → List PendingTxOutput → PoolManager → PoolManager
store_pending_tx txid tx_hex scripthashes outputs s = notify scripthashes (record s {
  pending_txs =
      insert txid (record { tx_hex = tx_hex; scripthashes = scripthashes; outputs = outputs })
        s.pending_txs;
})

-- The scripthashes of `extra` that `known` lacks, each once.
unfoldable pub newly_added : List String → List String → List String
newly_added known [] = []
newly_added known (sh ∷ extra) =
    let added = sh ∷ newly_added (known ++ sh ∷ []) extra in
    let rest = newly_added known extra in if contains_text known sh then rest else added

unfoldable pub merge_pending_scripthashes : String → List String → PoolManager → PoolManager
merge_pending_scripthashes txid extra s = elim (lookup txid s.pending_txs) [
  | none ↦ s
  | some info ↦
      let added = newly_added info.scripthashes extra in
      notify added (record s {
        pending_txs =
            insert txid (record info { scripthashes = info.scripthashes ++ added }) s.pending_txs;
      })
]

unfoldable pub remove_pending_tx : String → PoolManager → List String × PoolManager
remove_pending_tx txid s = elim (lookup txid s.pending_txs) [
  | none ↦ ([], s)
  | some info ↦ (
    info.scripthashes,
    notify info.scripthashes (record s { pending_txs = remove txid s.pending_txs }),
  )
]

unfoldable pub get_pending_tx_hex : String → PoolManager → Option String
get_pending_tx_hex txid s = Option.map (λ info. info.tx_hex) (lookup txid s.pending_txs)

unfoldable pub get_pending_txids_for_scripthash : String → PoolManager → List String
get_pending_txids_for_scripthash scripthash s =
    map (λ e. e.0) (select (λ e. contains_text e.1.scripthashes scripthash) s.pending_txs)

unfoldable pub outputs_for : String → String → List PendingTxOutput → List (String × ℕ × ℕ)
outputs_for scripthash txid [] = []
outputs_for scripthash txid (o ∷ os) =
    let rest = outputs_for scripthash txid os in
    if str_eq o.scripthash scripthash then (txid, o.output_index, o.value) ∷ rest else rest

utxos : String → Pending → List (String × ℕ × ℕ)
unfolding outputs_for
utxos scripthash [] = []
utxos scripthash ((txid, info) ∷ m) = outputs_for scripthash txid info.outputs ++ utxos scripthash m

unfoldable pub get_pending_utxos_for_scripthash : String → PoolManager → List (String × ℕ × ℕ)
unfolding utxos
get_pending_utxos_for_scripthash scripthash s = utxos scripthash s.pending_txs

add_outputs : String → ℕ → List PendingTxOutput → ℕ
add_outputs scripthash total [] = total
add_outputs scripthash total (o ∷ os) =
    add_outputs scripthash (if str_eq o.scripthash scripthash then total + o.value else total) os

add_all_outputs : String → ℕ → Pending → ℕ
unfolding add_outputs
add_all_outputs scripthash total [] = total
add_all_outputs scripthash total ((_, info) ∷ m) =
    add_all_outputs scripthash (add_outputs scripthash total info.outputs) m

-- A sum that passes 2^64 is not modelled: the money supply is below 2^51 satoshis.
unfoldable pub get_pending_unconfirmed_value : String → PoolManager → ℕ
unfolding add_all_outputs
get_pending_unconfirmed_value scripthash s = add_all_outputs scripthash 0 s.pending_txs
