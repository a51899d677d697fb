-- ===== src/Electrum/Intercept/Ack.antt =====
-- What a wallet sees from the answer to its broadcast on (src/electrum_server/mod.rs).
use broadcast_pool.Prelude.{
  String, true, ◌||◌, List, [], ◌∷◌, ◌++◌, Result, ok, err, trim, trim_idempotent, ◌≡◌, refl, sym,
  subst, ◌∙◌, ap, str_eq_iff, str_eq_refl, arith, Bool-cases, inl, inr, filter_map,
}
use broadcast_pool.Platform.{Platform}
use broadcast_pool.Json.{Value, string}
use broadcast_pool.Transactions.{
  Transaction, Codec, decode_tx, compute_txid, as_set, output_scripthashes,
  extract_affected_scripthashes_opts,
}
use broadcast_pool.Pool.{Backends, PoolManager}
use broadcast_pool.Pool.Safe.{contains_text}
use broadcast_pool.Pool.Mempool.{store_pending_tx, get_pending_txids_for_scripthash}
use broadcast_pool.Pool.Mempool.Refines.{store, change_all, change, lookup-insert}
use broadcast_pool.Pool.Mempool.Index.{Unique, change_all-search, touches}
use broadcast_pool.Electrum.{SessionState}
use broadcast_pool.Electrum.Inject.{history_id, inject_in_history}
use broadcast_pool.Electrum.Inject.Complete.{history_Complete, contains-append}
use broadcast_pool.Electrum.Ingest.{
  Fresh, store_pending_outputs, output_scripthashes_of, outputs_of,
}
use broadcast_pool.Electrum.Intercept.{
  Course, Task, finished, failed, late, intercept, intercept_and_handle_broadcast, answer,
  after_answer, preview_in, quick_broadcast_preview, result_reply, rejected,
}

as_set-contains :
    (known shs : List String) (sh : String)
    → contains_text (as_set known shs) sh ≡ (contains_text known sh || contains_text shs sh)
unfolding as_set contains_text
as_set-contains known [] sh = ground arith
as_set-contains known (x ∷ shs) sh = elim (Bool-cases (contains_text known x)) [
  | inl e ↦ ground (arith, e, as_set-contains known shs sh, str_eq_iff x sh)
  | inr e ↦
      ground (arith, e, as_set-contains (known ++ x ∷ []) shs sh, contains-append known (x ∷ []) sh)
]

module _ ⦃p : Platform⦄ ⦃c : Codec⦄ where
  decode-trim : (hex : String) → decode_tx (trim hex) ≡ decode_tx hex
  unfolding decode_tx
  decode-trim hex = ap c.consensus_decode (trim_idempotent hex)

  preview-decoded :
      (hex : String) (tx : Transaction)
      → decode_tx hex ≡ ok tx
      → quick_broadcast_preview hex ≡ ok (c.txid tx)
  unfolding quick_broadcast_preview compute_txid
  preview-decoded hex tx e = rw (decode-trim hex, e) refl

  preview-refused : (hex e : String) → decode_tx hex ≡ err e → quick_broadcast_preview hex ≡ err e
  unfolding quick_broadcast_preview compute_txid
  preview-refused hex m e = rw (decode-trim hex, e) refl

  outputs-decoded :
      (hex : String) (tx : Transaction)
      → decode_tx hex ≡ ok tx
      → output_scripthashes_of hex ≡ as_set [] (output_scripthashes tx)
  unfolding output_scripthashes_of extract_affected_scripthashes_opts
  outputs-decoded hex tx e = rw e refl

  -- A transaction that was put in is found under each of its script hashes.
  stored-found :
      (txid hex : String) (s : PoolManager) (sh : String)
      → Unique s.pending_txs
      → contains_text (output_scripthashes_of hex) sh ≡ true
      → contains_text (get_pending_txids_for_scripthash sh (store_pending_outputs txid hex s)) txid
        ≡ true
  unfolding store_pending_outputs store_pending_tx change change_all
  stored-found txid hex s sh u h =
      (change_all-search (store txid hex (output_scripthashes_of hex) (outputs_of hex) ∷ []) s sh
        txid u).0
      ∙ ap (touches sh) (lookup-insert txid txid _ s.pending_txs)
      ∙ rw (str_eq_refl txid) h

  answered-decoded :
      (course : Course) (hex : String) (tx : Transaction)
      → course.preview ≡ finished tt
      → decode_tx hex ≡ ok tx
      → preview_in course.preview hex ≡ ok (c.txid tx)
  answered-decoded course hex tx done e = ap (λ t. preview_in t hex) done ∙ preview-decoded hex tx e

  -- Where the virtual mempool has one entry for a txid, and the preview ends in time: a transaction that
  -- decodes is answered with its id, and at that moment each history of one of its outputs' script
  -- hashes lists it, whatever the indexer's history is.
  pub intercept-Visible :
      (course : Course) (id : Value) (hex : String) (session : SessionState) (s : PoolManager)
      (tx : Transaction) (sh : String) (history : List Value)
      → Unique s.pending_txs
      → course.preview ≡ finished tt
      → decode_tx hex ≡ ok tx
      → contains_text (output_scripthashes tx) sh ≡ true
      → let (reply, (session', s')) = intercept course id hex session s in
        (reply ≡ result_reply id (string (c.txid tx)))
        × (contains_text
              (filter_map history_id
                (inject_in_history history (get_pending_txids_for_scripthash sh s')))
              (c.txid tx)
            ≡ true)
  unfolding intercept contains_text
  intercept-Visible course id hex session s tx sh history u done e h =
      let e' = answered-decoded course hex tx done e in
      let there = stored-found (c.txid tx) hex s sh u (
        ap (λ l. contains_text l sh) (outputs-decoded hex tx e)
        ∙ as_set-contains [] (output_scripthashes tx) sh
        ∙ h) in
      let pending = get_pending_txids_for_scripthash sh (store_pending_outputs (c.txid tx) hex s) in
      let lists = history_Complete history pending (c.txid tx) in
      subst
        (λ r.
          let (reply, (session', s')) = answer r id hex session s in
          (reply ≡ result_reply id (string (c.txid tx)))
          × (contains_text
                (filter_map history_id
                  (inject_in_history history (get_pending_txids_for_scripthash sh s')))
                (c.txid tx)
              ≡ true))
        (sym e') (refl, ground (arith, lists, there))

  module _ ⦃b : Backends⦄ where
    -- Whatever the course of the tasks, a broadcast that does not decode gets the error -25, and the pool
    -- stays as it was, the virtual mempool, the database and the channels included.
    pub intercept-Refused :
        (course : Course) (fresh : Fresh) (id : Value) (hex source e : String)
        (session : SessionState) (s : PoolManager)
        → decode_tx hex ≡ err e
        → (message : String) × (intercept_and_handle_broadcast course fresh id hex source session s
            ≡ (rejected id message, (record session { broadcast_intercepted = true }, s)))
    unfolding intercept_and_handle_broadcast intercept
    intercept-Refused course fresh id hex source e session s d = go course.preview refl
      where
        whole : Result String → Value × (SessionState × PoolManager)
        whole r = after_answer course fresh r hex source (answer r id hex session s)

        go :
            (t : Task (Unit {0}))
            → course.preview ≡ t
            → (message : String) × (intercept_and_handle_broadcast course fresh id hex source
                  session s
                ≡ (rejected id message, (record session { broadcast_intercepted = true }, s)))
        go (finished x) k = (e, ap whole (ap (λ t. preview_in t hex) k ∙ preview-refused hex e d))
        go (failed m) k = (m, ap whole (ap (λ t. preview_in t hex) k))
        go late k = ("Invalid transaction hex", ap whole (ap (λ t. preview_in t hex) k))
