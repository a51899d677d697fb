-- ===== src/Electrum/Intercept.antt =====
-- src/electrum_server/mod.rs: the answer to a broadcast request, and what runs after it.
pub mod Ack
use broadcast_pool.Prelude.{
  ℕ, String, Bool, true, false, Option, none, some, List, [], ◌∷◌, if◌then◌else◌, Result, ok, err,
  trim, unwrap_or, ◌>>=◌, ◌>>◌, pure, attempt, modify, gets,
}
use broadcast_pool.Platform.{Platform}
use broadcast_pool.Json.{Value, string, object, end, field, number, neg_int}
use broadcast_pool.Transactions.{
  Transaction, Codec, compute_txid, strip_indexer_host, enrich_input_scripthashes,
}
use broadcast_pool.Pool.{Backends, PoolManager, Manager}
use broadcast_pool.Pool.Mempool.{merge_pending_scripthashes}
use broadcast_pool.Pool.Lookup.{lookup_tx_hex}
use broadcast_pool.Electrum.{SessionState}
use broadcast_pool.Electrum.Source.{effective_source}
use broadcast_pool.Electrum.Ingest.{
  Fresh, BroadcastHandleResult, handle_broadcast, store_pending_outputs, offline,
}

-- `json!` of an answer, in the order of its keys
abbrev pub result_reply : Value → Value → Value
result_reply id result =
    object (field "id" id (field "jsonrpc" (string "2.0") (field "result" result end)))

-- `-25`
abbrev pub rejected : Value → String → Value
rejected id message = object (
    field "error"
      (object (field "code" (number (neg_int 24)) (field "message" (string message) end)))
      (field "id" id (field "jsonrpc" (string "2.0") end)))

-- How a blocking task under a timeout ends.
pub data Task (A : Type 0) : Type 0 where
  finished : A → Task A
  failed : String → Task A
  late : Task A

-- The tasks of one broadcast: whether each ends in time, or the error with which it failed.
pub record Course : Type 0 where
  pub preview : Task (Unit {0})
  pub ingest : Task (Unit {0})
  pub handled : ℕ
  pub fetch : String → Option Transaction

module _ ⦃p : Platform⦄ ⦃c : Codec⦄ where
  unfoldable pub quick_broadcast_preview : String → Result String
  unfolding compute_txid trim
  quick_broadcast_preview tx_hex = compute_txid (trim tx_hex)

  -- The preview as the server sees it: the id, or the message of the error that it answers.
  abbrev pub preview_in : Task (Unit {0}) → String → Result String
  preview_in (finished _) hex = quick_broadcast_preview hex
  preview_in (failed e) hex = err e
  preview_in late hex = err "Invalid transaction hex"

  abbrev pub answer :
      Result String
      → Value
      → String
      → SessionState
      → PoolManager
      → Value × (SessionState × PoolManager)
  answer (err e) id hex session s =
      (rejected id e, (record session { broadcast_intercepted = true }, s))
  answer (ok txid) id hex session s = (
    result_reply id (string txid),
    (
      record session { broadcast_intercepted = true; recent_broadcast_txid = some txid },
      store_pending_outputs txid hex s,
    ),
  )

  -- Up to the answer.
  unfoldable pub intercept :
      Course → Value → String → SessionState → PoolManager → Value × (SessionState × PoolManager)
  unfolding quick_broadcast_preview store_pending_outputs
  intercept course id hex session s = answer (preview_in course.preview hex) id hex session s

  unfoldable pub enrich_pending_input_scripthashes :
      Course → String → String → String → PoolManager → PoolManager
  unfolding enrich_input_scripthashes strip_indexer_host lookup_tx_hex
  enrich_pending_input_scripthashes course txid tx_hex indexer_url s =
      elim (enrich_input_scripthashes course.handled course.fetch (strip_indexer_host indexer_url)
        (λ id. lookup_tx_hex id s) tx_hex) [
          | err e ↦ s
          | ok [] ↦ s
          | ok (sh ∷ shs) ↦ merge_pending_scripthashes txid (sh ∷ shs) s
        ]

  module _ ⦃b : Backends⦄ where
    -- The task in the background: a late or failed one is not waited for, and so nothing is enriched.
    abbrev after_ingest : Course → Result BroadcastHandleResult → Manager (Unit {0})
    after_ingest course (err e) = pure tt
    after_ingest course (ok r) = elim course.ingest [
      | finished _ ↦ modify (λ s.
          enrich_pending_input_scripthashes course r.txid r.tx_hex
            (unwrap_or s.config.indexer_url "") s)
      | failed e ↦ pure tt
      | late ↦ pure tt
    ]

    unfoldable pub ingest_in_background : Course → Fresh → String → String → Manager (Unit {0})
    unfolding handle_broadcast enrich_pending_input_scripthashes
    ingest_in_background course fresh source hex = do
      r ← attempt (handle_broadcast fresh source hex)
      after_ingest course r

    abbrev pub after_answer :
        Course
        → Fresh
        → Result String
        → String
        → String
        → Value × (SessionState × PoolManager)
        → Value × (SessionState × PoolManager)
    after_answer course fresh (err e) hex source_label answered = answered
    after_answer course fresh (ok txid) hex source_label (reply, (session, s)) = (
      reply,
      (
        session,
        (ingest_in_background course fresh (effective_source session source_label) hex s).1,
      ),
    )

    -- The whole request: the answer, then the task with the source of the session.
    unfoldable pub intercept_and_handle_broadcast :
        Course
        → Fresh
        → Value
        → String
        → String
        → SessionState
        → PoolManager
        → Value × (SessionState × PoolManager)
    unfolding intercept ingest_in_background effective_source quick_broadcast_preview
    intercept_and_handle_broadcast course fresh id hex source_label session s =
        after_answer course fresh (preview_in course.preview hex) hex source_label
          (intercept course id hex session s)
