-- ===== src/Pool/Confirm/Seen.antt =====
-- Which rows `check_confirmations` of src/pool/manager.rs touches.
use broadcast_pool.Prelude.{
  ℕ, ◌+◌, String, Bool, true, false, Option, none, some, List, [], ◌∷◌, if◌then◌else◌, str_eq,
  Result, ok, err, ◌>>=◌, pure, after-bind, ◌≡◌, refl, ◌∙◌, ap, All, map, select, take, ◌&&◌,
  Bool-cases, inl, inr,
}
use broadcast_pool.Platform.{Platform}
use broadcast_pool.Models.{BroadcastTx}
use broadcast_pool.Transactions.{Transaction, Codec}
use broadcast_pool.Db.{Database, find, map_broadcast_row}
use broadcast_pool.Db.Find.{find-update_other, find-reseal_other}
use broadcast_pool.Db.Write.{mark_confirmed}
use broadcast_pool.Db.Read.{list_broadcast_txs, by_created_desc}
use broadcast_pool.Pool.{Backends, PoolManager}
use broadcast_pool.Pool.Confirm.{
  notify_tx_confirmed, announced, in_block, probed, confirm_one, confirm_all, by_indexer,
  check_confirmations,
}

module _ ⦃p : Platform⦄ where
  confirm-other :
      (now : ℕ) (id j : String) (height : ℕ) (db : Database)
      → str_eq id j ≡ false
      → find j (mark_confirmed now id height db).1.pool ≡ find j db.pool
  unfolding mark_confirmed
  confirm-other now id j height db other =
      find-reseal_other id j _ other
      ∙ find-update_other id j _ _ (λ r h. h) (λ r. refl) other db.pool

module _ ⦃c : Codec⦄ (fetch : String → Option Transaction) where
  announced-db : (r : Result (List String)) (s : PoolManager) → (announced r s).db ≡ s.db
  announced-db (ok shs) s = refl
  announced-db (err e) s = refl

  notified-db : (hex : String) (s : PoolManager) → (notify_tx_confirmed fetch hex s).db ≡ s.db
  unfolding notify_tx_confirmed
  notified-db hex s = announced-db _ s

  module _ ⦃p : Platform⦄ ⦃b : Backends⦄ (j : String) where
    -- If Bitcoin Core ever reports the transaction in a block, it is not the one under `j`.
    abbrev pub Other : BroadcastTx → Type 0
    Other tx =
        (txid : String) (n : ℕ)
        → tx.txid ≡ some txid
        → b.rpc_transaction n txid ≡ some true
        → str_eq tx.id j ≡ false

    in_block-Other :
        (tx : BroadcastTx) (r : Result ℕ) (s : PoolManager)
        → str_eq tx.id j ≡ false
        → find j (in_block fetch tx r s).1.db.pool ≡ find j s.db.pool
    in_block-Other tx (err e) s other = refl
    in_block-Other tx (ok height) s other =
        ap (λ d. find j d.pool) (notified-db tx.tx_hex _)
        ∙ confirm-other (b.now s.calls) tx.id j height s.db other

    probed-Other :
        (tx : BroadcastTx) (o : Option Bool) (s : PoolManager)
        → (o ≡ some true → str_eq tx.id j ≡ false)
        → find j (probed fetch tx o s).1.db.pool ≡ find j s.db.pool
    probed-Other tx (some true) s h =
        in_block-Other tx (b.rpc_height s.calls) (record s { calls = s.calls + 1 }) (h refl)
    probed-Other tx (some false) s h = refl
    probed-Other tx none s h = refl

    confirm_one-Other :
        (tx : BroadcastTx) (s : PoolManager)
        → Other tx
        → find j (confirm_one fetch tx s).1.db.pool ≡ find j s.db.pool
    unfolding confirm_one
    confirm_one-Other tx s h = go tx.txid refl
      where
        go :
            (o : Option String)
            → tx.txid ≡ o
            → find j (confirm_one fetch tx s).1.db.pool ≡ find j s.db.pool
        go none e = rw e refl
        go (some txid) e = rw e (
            probed-Other tx (b.rpc_transaction s.calls txid) (record s { calls = s.calls + 1 })
              (h txid s.calls e))

    confirm_all-Other :
        (txs : List BroadcastTx) (s : PoolManager)
        → All Other txs
        → find j (confirm_all fetch txs s).1.db.pool ≡ find j s.db.pool
    unfolding confirm_all
    confirm_all-Other [] s h = refl
    confirm_all-Other (tx ∷ txs) s h =
        let same : PoolManager → Type 0 = λ t. find j t.db.pool ≡ find j s.db.pool in
        let first = confirm_one-Other tx s h.0 in
        let s' = (confirm_one fetch tx s).1 in
        let rest = confirm_all-Other txs s' h.1 ∙ first in
        after-bind same (confirm_one fetch tx)
          (λ r. confirm_all fetch txs >>= (λ rs. pure (r ∷ rs))) s first
          (λ r. after-bind same (confirm_all fetch txs) (λ rs. pure (r ∷ rs)) s' rest (λ rs. rest))

    by_indexer-Other : (txs : List BroadcastTx) (s : PoolManager) → (by_indexer txs s).1.db ≡ s.db
    by_indexer-Other txs s = elim (Bool-cases (b.has_indexer s.calls)) [
      | inl e ↦ rw e refl
      | inr e ↦ rw e refl
    ]

    finish-Other :
        (alive : Bool) (txs : List BroadcastTx) (s : PoolManager)
        → All Other txs
        → find j ((if alive then confirm_all fetch txs else by_indexer txs) s).1.db.pool
          ≡ find j s.db.pool
    finish-Other true txs s h = confirm_all-Other txs s h
    finish-Other false txs s h = ap (λ d. find j d.pool) (by_indexer-Other txs s)

    -- The transactions that a check looks at.
    abbrev pub batch : PoolManager → List BroadcastTx
    batch s = map (map_broadcast_row (b.now s.calls) s.db.key) (
        take 1000 (
          by_created_desc (
            select (λ r. str_eq r.network s.config.network && str_eq r.status "broadcast")
              s.db.pool)))

    -- A check of the confirmations leaves the row under an id as it is unless Bitcoin Core reports in a
    -- block a transaction that the check looks at under that id: one of the 1000 newest rows of the
    -- network that are broadcast.
    pub check_confirmations-Other :
        (s : PoolManager)
        → All Other (batch s)
        → find j (check_confirmations fetch s).1.db.pool ≡ find j s.db.pool
    unfolding check_confirmations list_broadcast_txs
    check_confirmations-Other s h = elim (Bool-cases b.has_rpc) [
      | inl e ↦ rw e (
          finish-Other (b.rpc_alive (s.calls + 1)) (batch s) (record s { calls = s.calls + 1 + 1 })
            h)
      | inr e ↦ rw e (finish-Other false (batch s) (record s { calls = s.calls + 1 }) h)
    ]
