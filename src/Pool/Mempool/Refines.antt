-- ===== src/Pool/Mempool/Refines.antt =====
-- The retained transactions of src/pool/manager.rs as a map from txids: each operation that changes
-- them against what it does to that map.
use broadcast_pool.Prelude.{
  ℕ, min, ltb, String, true, false, Bool, ap, ◌≡◌, refl, ◌∙◌, Option, none, some, List, [], ◌∷◌,
  ◌++◌, str_eq, str_eq_iff, if◌then◌else◌, arith,
}
use mathlib.Core.Option
use mathlib.Core.Path.{fun_ext}
use broadcast_pool.Pool.{PendingTxOutput, PendingTxInfo, PoolManager}
use broadcast_pool.Pool.Mempool.{
  Pending, lookup, store_pending_tx, merge_pending_scripthashes, remove_pending_tx, newly_added,
  get_pending_txids_for_scripthash,
}
use broadcast_pool.Pool.Mempool.Occurs.{occurs, occurs-append, occurs-newly_added}
use broadcast_pool.Pool.Mempool

pub lookup-insert :
    (j txid : String) (info : PendingTxInfo) (m : Pending)
    → lookup j (Mempool.insert txid info m) ≡ (if str_eq txid j then some info else lookup j m)
unfolding lookup Mempool.insert
lookup-insert j txid info [] = refl
lookup-insert j txid info ((k, old) ∷ m) =
    ground
      (arith, lookup-insert j txid info m, str_eq_iff k txid, str_eq_iff k j, str_eq_iff txid j)

pub lookup-remove :
    (j txid : String) (m : Pending)
    → lookup j (Mempool.remove txid m) ≡ (if str_eq txid j then none else lookup j m)
unfolding lookup Mempool.remove
lookup-remove j txid [] = ground arith
lookup-remove j txid ((k, old) ∷ m) =
    ground (arith, lookup-remove j txid m, str_eq_iff k txid, str_eq_iff k j, str_eq_iff txid j)

-- The calls that change the retained transactions.
pub data Change : Type 0 where
  store : String → String → List String → List PendingTxOutput → Change
  merge : String → List String → Change
  remove : String → Change

unfoldable pub change : Change → PoolManager → PoolManager
change (store txid tx_hex scripthashes outputs) s =
    store_pending_tx txid tx_hex scripthashes outputs s
change (merge txid extra) s = merge_pending_scripthashes txid extra s
change (remove txid) s = (remove_pending_tx txid s).1

unfoldable pub change_all : List Change → PoolManager → PoolManager
unfolding change
change_all [] s = s
change_all (c ∷ cs) s = change_all cs (change c s)

-- An entry without the order of its scripthashes: its hex, its outputs, and how often it lists each.
abbrev pub Entry : Type 0
Entry = String × (List PendingTxOutput × (String → ℕ))

abbrev pub entry_of : PendingTxInfo → Entry
entry_of info = (info.tx_hex, (info.outputs, λ sh. occurs sh info.scripthashes))

abbrev pub Map : Type 0
Map = String → Option Entry

-- A scripthash that is listed stays as it is; one that is not comes in once, however often it is handed in.
abbrev pub merged : List String → Option Entry → Option Entry
merged extra none = none
merged extra (some (hex, (outputs, times))) =
    some (hex, (outputs, λ sh. if ltb 0 (times sh) then times sh else min 1 (occurs sh extra)))

-- What a call does to the map: it changes the entry of its txid only.
pub change_map : Change → Map → Map
change_map (store txid tx_hex scripthashes outputs) m j =
    if str_eq txid j then some (tx_hex, (outputs, λ sh. occurs sh scripthashes)) else m j
change_map (merge txid extra) m j = if str_eq txid j then merged extra (m j) else m j
change_map (remove txid) m j = if str_eq txid j then none else m j

pub change_map_all : List Change → Map → Map
unfolding change_map
change_map_all [] m = m
change_map_all (c ∷ cs) m = change_map_all cs (change_map c m)

abbrev pub view : PoolManager → Map
view s j = Option.map entry_of (lookup j s.pending_txs)

same_key : (txid j : String) (m : Pending) → str_eq txid j ≡ true → lookup j m ≡ lookup txid m
same_key txid j m e = rw ((str_eq_iff txid j).0 e) refl

-- What a merge leaves of an entry.
entry_of-merged :
    (info : PendingTxInfo) (extra : List String)
    → some (
        entry_of
          (record info { scripthashes = info.scripthashes ++ newly_added info.scripthashes extra }))
      ≡ merged extra (some (entry_of info))
entry_of-merged info extra =
    ap (λ times. some (info.tx_hex, (info.outputs, times)))
      (fun_ext λ sh. ground (
        arith,
        occurs-append sh info.scripthashes (newly_added info.scripthashes extra),
        occurs-newly_added sh info.scripthashes extra,
      ))

map-if :
    (t : Bool) (a o : Option PendingTxInfo)
    → Option.map entry_of (if t then a else o)
      ≡ (if t then Option.map entry_of a else Option.map entry_of o)
map-if true a o = refl
map-if false a o = refl

-- The same on whole entries, one call at a time.
abbrev extended : List String → Option PendingTxInfo → Option PendingTxInfo
extended extra none = none
extended extra (some info) =
    some (record info { scripthashes = info.scripthashes ++ newly_added info.scripthashes extra })

abbrev change_info : Change → (String → Option PendingTxInfo) → String → Option PendingTxInfo
change_info (store txid tx_hex scripthashes outputs) m j =
    if str_eq txid j
    then some (record { tx_hex = tx_hex; scripthashes = scripthashes; outputs = outputs })
    else m j
change_info (merge txid extra) m j = if str_eq txid j then extended extra (m j) else m j
change_info (remove txid) m j = if str_eq txid j then none else m j

change-lookup :
    (c : Change) (s : PoolManager) (j : String)
    → lookup j (change c s).pending_txs ≡ change_info c (λ k. lookup k s.pending_txs) j
unfolding change store_pending_tx merge_pending_scripthashes remove_pending_tx
change-lookup (store txid tx_hex scripthashes outputs) s j = lookup-insert j txid _ s.pending_txs
change-lookup (merge txid extra) s j = go (lookup txid s.pending_txs) refl
  where
    go :
        (o : Option PendingTxInfo)
        → lookup txid s.pending_txs ≡ o
        → lookup j (change (merge txid extra) s).pending_txs
          ≡ change_info (merge txid extra) (λ k. lookup k s.pending_txs) j
    go none e = ground (arith, same_key txid j s.pending_txs)
    go (some info) e = ground (
      arith,
      same_key txid j s.pending_txs,
      lookup-insert j txid
          (record info { scripthashes = info.scripthashes ++ newly_added info.scripthashes extra })
          s.pending_txs,
    )
change-lookup (remove txid) s j = go (lookup txid s.pending_txs) refl
  where
    go :
        (o : Option PendingTxInfo)
        → lookup txid s.pending_txs ≡ o
        → lookup j (change (remove txid) s).pending_txs
          ≡ change_info (remove txid) (λ k. lookup k s.pending_txs) j
    go none e = ground (arith, same_key txid j s.pending_txs)
    go (some info) e = ground (arith, lookup-remove j txid s.pending_txs)

extended-merged :
    (extra : List String) (o : Option PendingTxInfo)
    → Option.map entry_of (extended extra o) ≡ merged extra (Option.map entry_of o)
extended-merged extra none = refl
extended-merged extra (some info) = entry_of-merged info extra

change_info-map :
    (c : Change) (m : String → Option PendingTxInfo) (j : String)
    → Option.map entry_of (change_info c m j) ≡ change_map c (λ k. Option.map entry_of (m k)) j
unfolding change_map
change_info-map (store txid tx_hex scripthashes outputs) m j = map-if (str_eq txid j) _ _
change_info-map (merge txid extra) m j =
    map-if (str_eq txid j) _ _
    ∙ ap (λ o. if str_eq txid j then o else Option.map entry_of (m j)) (extended-merged extra (m j))
change_info-map (remove txid) m j = map-if (str_eq txid j) _ _

change-view :
    (c : Change) (s : PoolManager) (j : String) → view (change c s) j ≡ change_map c (view s) j
change-view c s j =
    ap (Option.map entry_of) (change-lookup c s j)
    ∙ change_info-map c (λ k. lookup k s.pending_txs) j

change_map_ext :
    (c : Change) (m n : Map)
    → ((j : String) → m j ≡ n j)
    → (j : String) → change_map c m j ≡ change_map c n j
unfolding change_map
change_map_ext (store txid tx_hex scripthashes outputs) m n h j = rw (h j) refl
change_map_ext (merge txid extra) m n h j = rw (h j) refl
change_map_ext (remove txid) m n h j = rw (h j) refl

change_map_all_ext :
    (cs : List Change) (m n : Map)
    → ((j : String) → m j ≡ n j)
    → (j : String) → change_map_all cs m j ≡ change_map_all cs n j
unfolding change_map_all
change_map_all_ext [] m n h j = h j
change_map_all_ext (c ∷ cs) m n h j =
    change_map_all_ext cs (change_map c m) (change_map c n) (change_map_ext c m n h) j

-- After any sequence of calls that store, extend or remove retained transactions, the lookup of
-- each txid gives what the sequence leads to on maps from txids to entries, an entry being the hex,
-- the outputs, and how often each scripthash is listed: a store puts one entry in place, a removal
-- clears one, and an extension lists each scripthash that was not listed once and leaves the others
-- as they were.
pub change_all-view :
    (cs : List Change) (s : PoolManager) (j : String)
    → view (change_all cs s) j ≡ change_map_all cs (view s) j
unfolding change_all change_map_all
change_all-view [] s j = refl
change_all-view (c ∷ cs) s j =
    change_all-view cs (change c s) j
    ∙ change_map_all_ext cs (view (change c s)) (change_map c (view s)) (change-view c s) j
