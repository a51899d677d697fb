-- ===== src/Pool/Mempool/Index.antt =====
-- The search by scripthash in the retained transactions of src/pool/manager.rs.
use broadcast_pool.Prelude.{
  ℕ, ◌+◌, String, Bool, false, ◌≡◌, refl, Option, none, some, List, [], ◌∷◌, ◌++◌, map, select,
  str_eq, str_eq_iff, arith, All, Bool-cases, inl, inr, subst,
}
use broadcast_pool.Pool.{PendingTxOutput, PendingTxInfo, PoolManager}
use broadcast_pool.Pool.Safe.{contains_text}
use broadcast_pool.Pool.Mempool.{
  Pending, lookup, store_pending_tx, merge_pending_scripthashes, remove_pending_tx, newly_added,
  get_pending_txids_for_scripthash, get_pending_utxos_for_scripthash, get_pending_unconfirmed_value,
  outputs_for, utxos, add_outputs, add_all_outputs,
}
use broadcast_pool.Pool.Mempool
use broadcast_pool.Pool.Mempool.Refines.{Change, change, change_all, store, merge, remove}

abbrev Absent : String → Pending → Type 0
Absent txid = All (λ e. str_eq e.0 txid ≡ false)

-- One entry for a txid.
abbrev pub Unique : Pending → Type 0
Unique [] = Unit
Unique ((txid, info) ∷ m) = Absent txid m × Unique m

Absent-insert :
    (k txid : String) (info : PendingTxInfo) (m : Pending)
    → str_eq txid k ≡ false
    → Absent k m
    → Absent k (Mempool.insert txid info m)
unfolding Mempool.insert
Absent-insert k txid info [] e h = (e, tt)
Absent-insert k txid info ((j, old) ∷ m) e h = elim (Bool-cases (str_eq j txid)) [
  | inl hit ↦ rw hit (e, h.1)
  | inr miss ↦ rw miss (h.0, Absent-insert k txid info m e h.1)
]

Unique-insert :
    (txid : String) (info : PendingTxInfo) (m : Pending)
    → Unique m
    → Unique (Mempool.insert txid info m)
unfolding Mempool.insert
Unique-insert txid info [] u = (tt, tt)
Unique-insert txid info ((j, old) ∷ m) u = elim (Bool-cases (str_eq j txid)) [
  | inl hit ↦ rw hit (rw ((str_eq_iff j txid).0 hit) at u.0, u.1)
  | inr miss ↦ rw miss (
    Absent-insert j txid info m (ground (arith, str_eq_iff j txid, str_eq_iff txid j)) u.0,
    Unique-insert txid info m u.1,
  )
]

Absent-remove : (k txid : String) (m : Pending) → Absent k m → Absent k (Mempool.remove txid m)
unfolding Mempool.remove
Absent-remove k txid [] h = tt
Absent-remove k txid ((j, info) ∷ m) h = elim (Bool-cases (str_eq j txid)) [
  | inl hit ↦ rw hit (Absent-remove k txid m h.1)
  | inr miss ↦ rw miss (h.0, Absent-remove k txid m h.1)
]

Unique-remove : (txid : String) (m : Pending) → Unique m → Unique (Mempool.remove txid m)
unfolding Mempool.remove
Unique-remove txid [] u = tt
Unique-remove txid ((j, info) ∷ m) u = elim (Bool-cases (str_eq j txid)) [
  | inl hit ↦ rw hit (Unique-remove txid m u.1)
  | inr miss ↦ rw miss (Absent-remove j txid m u.0, Unique-remove txid m u.1)
]

change-Unique :
    (c : Change) (s : PoolManager) → Unique s.pending_txs → Unique (change c s).pending_txs
unfolding change store_pending_tx merge_pending_scripthashes remove_pending_tx
change-Unique (store txid tx_hex scripthashes outputs) s u = Unique-insert txid _ s.pending_txs u
change-Unique (merge txid extra) s u = go (lookup txid s.pending_txs) refl
  where
    go :
        (o : Option PendingTxInfo)
        → lookup txid s.pending_txs ≡ o
        → Unique (change (merge txid extra) s).pending_txs
    go none e = subst Unique (ground arith) u
    go (some info) e =
        let longer = record info {
          scripthashes = info.scripthashes ++ newly_added info.scripthashes extra;
        } in
        let same : Mempool.insert txid longer s.pending_txs
            ≡ (change (merge txid extra) s).pending_txs =
          ground arith in
        subst Unique same (Unique-insert txid longer s.pending_txs u)
change-Unique (remove txid) s u = go (lookup txid s.pending_txs) refl
  where
    go :
        (o : Option PendingTxInfo)
        → lookup txid s.pending_txs ≡ o
        → Unique (change (remove txid) s).pending_txs
    go none e = subst Unique (ground arith) u
    go (some info) e =
        let same : Mempool.remove txid s.pending_txs ≡ (change (remove txid) s).pending_txs =
          ground arith in
        subst Unique same (Unique-remove txid s.pending_txs u)

-- One entry for a txid stays one entry.
pub change_all-Unique :
    (cs : List Change) (s : PoolManager)
    → Unique s.pending_txs
    → Unique (change_all cs s).pending_txs
unfolding change_all
change_all-Unique [] s u = u
change_all-Unique (c ∷ cs) s u = change_all-Unique cs (change c s) (change-Unique c s u)

-- Whether the entry under this txid pays to the scripthash or spends from it.
abbrev pub touches : String → Option PendingTxInfo → Bool
touches scripthash none = false
touches scripthash (some info) = contains_text info.scripthashes scripthash

abbrev found : String → Pending → List String
found scripthash m = map (λ e. e.0) (select (λ e. contains_text e.1.scripthashes scripthash) m)

lookup-Absent : (txid : String) (m : Pending) → Absent txid m → lookup txid m ≡ none
unfolding lookup
lookup-Absent txid [] h = refl
lookup-Absent txid ((j, info) ∷ m) h = ground (arith, lookup-Absent txid m h.1, h.0)

found-lookup :
    (scripthash txid : String) (m : Pending)
    → Unique m
    → contains_text (found scripthash m) txid ≡ touches scripthash (lookup txid m)
unfolding lookup contains_text
found-lookup scripthash txid [] u = refl
found-lookup scripthash txid ((j, info) ∷ m) u = elim (Bool-cases (str_eq j txid)) [
  | inl hit ↦
      let gone : lookup txid m ≡ none =
        lookup-Absent txid m (rw ((str_eq_iff j txid).0 hit) at u.0) in
      ground (arith, hit, gone, found-lookup scripthash txid m u.1)
  | inr miss ↦ ground (arith, miss, found-lookup scripthash txid m u.1)
]

-- The value of a list of outputs.
abbrev pub sum : List (String × ℕ × ℕ) → ℕ
sum [] = 0
sum ((_, _, value) ∷ os) = value + sum os

sum-append : (xs ys : List (String × ℕ × ℕ)) → sum (xs ++ ys) ≡ sum xs + sum ys
sum-append [] ys = ground arith
sum-append ((_, _, value) ∷ xs) ys = ground (arith, sum-append xs ys)

add_outputs-sum :
    (scripthash txid : String) (total : ℕ) (os : List PendingTxOutput)
    → add_outputs scripthash total os ≡ total + sum (outputs_for scripthash txid os)
unfolding add_outputs outputs_for
add_outputs-sum scripthash txid total [] = ground arith
add_outputs-sum scripthash txid total (o ∷ os) = ground (
  arith,
  add_outputs-sum scripthash txid (total + o.value) os,
  add_outputs-sum scripthash txid total os,
)

add_all_outputs-sum :
    (scripthash : String) (total : ℕ) (m : Pending)
    → add_all_outputs scripthash total m ≡ total + sum (utxos scripthash m)
unfolding add_all_outputs utxos
add_all_outputs-sum scripthash total [] = ground arith
add_all_outputs-sum scripthash total ((txid, info) ∷ m) = ground (
  arith,
  add_all_outputs-sum scripthash (add_outputs scripthash total info.outputs) m,
  add_outputs-sum scripthash txid total info.outputs,
  sum-append (outputs_for scripthash txid info.outputs) (utxos scripthash m),
)

pub change_all-search :
    (cs : List Change) (s : PoolManager) (scripthash txid : String)
    → Unique s.pending_txs
    → (contains_text (get_pending_txids_for_scripthash scripthash (change_all cs s)) txid
        ≡ touches scripthash (lookup txid (change_all cs s).pending_txs))
      × (get_pending_unconfirmed_value scripthash (change_all cs s)
          ≡ sum (get_pending_utxos_for_scripthash scripthash (change_all cs s)))
unfolding get_pending_txids_for_scripthash get_pending_unconfirmed_value
    get_pending_utxos_for_scripthash
change_all-search cs s scripthash txid u = (
  found-lookup scripthash txid (change_all cs s).pending_txs (change_all-Unique cs s u),
  ground (arith, add_all_outputs-sum scripthash 0 (change_all cs s).pending_txs),
)
