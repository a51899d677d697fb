-- ===== src/Examples/Ingests.antt =====
-- The theorems on the Electrum server at concrete inputs.
use broadcast_pool.Prelude.{
  ℕ, ◌⊎◌, String, true, false, ◌||◌, ◌++◌, none, some, List, [], ◌∷◌, ok, str_eq, codes, ◌≡◌, refl,
  arith, All, filter_map, trim, from_codes, contains, lower,
}
use broadcast_pool.Models.{BroadcastTx, pending}
use broadcast_pool.Json.{
  Value, null, string, array, cons, nil, from_u64, from_list, pos, and_then, get, as_i64,
}
use broadcast_pool.Db.{find}
use broadcast_pool.Db.Write.{get_broadcast_tx_by_id, insert_broadcast_tx, new_row}
use broadcast_pool.Pool.Safe.{contains_text}
use broadcast_pool.Pool.Mempool.{lookup, store_pending_tx, get_pending_txids_for_scripthash}
use broadcast_pool.Electrum.{new}
use broadcast_pool.Electrum.Inject.{
  history_id, mempool_id, inject_in_history, inject_get_mempool, inject_balance_unconfirmed,
  i64_field, ◌+ℤ◌,
}
use broadcast_pool.Electrum.Inject.Complete.{inject-Names}
use broadcast_pool.Electrum.Inject.Balance.{inject_balance-Exact}
use broadcast_pool.Electrum.Source.{effective_source, is_version_request, client_name}
use broadcast_pool.Electrum.Request.{batch_items}
use broadcast_pool.Transactions.{decode_tx, output_scripthashes}
use broadcast_pool.Electrum.Source.History.{
  capture_lines, sent, any_version, last_name, effective_source-Sent,
}
use broadcast_pool.Electrum.Plan.{resolve_ingest_plan}
use broadcast_pool.Electrum.Plan.Final.{SentAtOnce, plan-SentAtOnce}
use broadcast_pool.Electrum.Lines.{pop_client_line, is_broadcast_line, pop_all, line_ranges, slice}
use broadcast_pool.Electrum.Lines.Cuts.{AtLineStart, NoNewline}
use broadcast_pool.Electrum.Lines.Drained.{pop_client_line-Whole, pop_all-Ends, Drained}
use broadcast_pool.Electrum.Ingest.{handle_broadcast}
use broadcast_pool.Electrum.Ingest.Described.{armed_block, handle_broadcast-Due}
use broadcast_pool.Electrum.Ingest.Kept.{handle_broadcast-Kept, retained_as, kept_info}
use broadcast_pool.Electrum.Ingest.Target.{armed-Distinct}
use broadcast_pool.Electrum.Intercept.{
  intercept, intercept_and_handle_broadcast, result_reply, rejected,
}
use broadcast_pool.Electrum.Intercept.Ack.{intercept-Visible, intercept-Refused}
use broadcast_pool.Electrum.Headers.{tip_reply}
use broadcast_pool.Electrum.Serve.{handle_one_subrequest}
use broadcast_pool.Electrum.Serve.Forwarded.{NoBroadcast, handle_all, handle_all-NoBroadcast}
use broadcast_pool.Electrum.Serve.Tip.{subscribing, MadeUp, handle_one_subrequest-Tip}
use broadcast_pool.Examples.Toy.{toy, toy-Decodes}
use broadcast_pool.Examples.World.{manager, steady}
use broadcast_pool.Examples.Headers.{adding}
use broadcast_pool.Examples.Wallets.{
  one_output, small, version_only, text, fresh, draw_at, course, armed, told, identity, silent,
  broadcast_request, connected, balance, listed,
}

inject-Names_example :
    (contains_text (filter_map history_id (inject_in_history listed ("b" ∷ []))) "b"
      ≡ (contains_text (filter_map history_id listed) "b" || contains_text ("b" ∷ []) "b"))
    × ((injected : List Value) × ((inject_get_mempool
              (array (cons (from_u64 3) (cons (array (from_list [])) nil)))
              ("b" ∷ [])
            ≡ array (cons (from_u64 3) (cons (array (from_list injected)) nil)))
          × (contains_text (filter_map mempool_id injected) "b"
              ≡ (contains_text (filter_map mempool_id []) "b" || contains_text ("b" ∷ []) "b"))))
inject-Names_example = inject-Names listed 3 [] ("b" ∷ []) "b" (omega arith)

inject_balance-Exact_example :
    (i64_field "confirmed" (inject_balance_unconfirmed balance 7) ≡ i64_field "confirmed" balance)
    × (i64_field "unconfirmed" (inject_balance_unconfirmed balance 7)
        ≡ i64_field "unconfirmed" balance +ℤ pos 7)
unfolding and_then get as_i64
inject_balance-Exact_example =
    inject_balance-Exact balance 7 (omega arith) (omega arith) (omega arith)

effective_source-Sent_example :
    effective_source (capture_lines ("v" ∷ "x" ∷ []) new) "sparrow" ≡ "sparrow"
unfolding any_version sent batch_items is_version_request last_name client_name contains lower
effective_source-Sent_example = effective_source-Sent ("v" ∷ "x" ∷ []) "sparrow"

plan-SentAtOnce_example :
    (str_eq "sparrow" "liana" ≡ false) × SentAtOnce "sparrow" 700 manager.config (some 800)
unfolding resolve_ingest_plan
plan-SentAtOnce_example = plan-SentAtOnce draw_at "sparrow" 700 manager.config (some 800) refl

intercept-Refused_example :
    (message : String) × (intercept_and_handle_broadcast course
        (fresh "new")
        null
        ""
        "sparrow"
        new
        manager
      ≡ (rejected null message, (record new { broadcast_intercepted = true }, manager)))
unfolding decode_tx
intercept-Refused_example =
    intercept-Refused course (fresh "new") null "" "sparrow" "Failed to decode transaction" new
      manager refl

intercept-Visible_example :
    let (reply, (session', s')) = intercept course null "aa" new manager in
    (reply ≡ result_reply null (string "t"))
    × (contains_text
          (filter_map history_id
            (inject_in_history listed (get_pending_txids_for_scripthash "s" s')))
          "t"
        ≡ true)
unfolding decode_tx output_scripthashes contains_text
intercept-Visible_example =
    intercept-Visible course null "aa" new manager one_output "s" listed tt refl refl refl

handle_broadcast-Kept_example :
    ((handle_broadcast (fresh "new") "sparrow" "aa" manager).0 ≡ ok (retained_as "t" (trim "aa")))
    × (lookup "t" (handle_broadcast (fresh "new") "sparrow" "aa" manager).1.pending_txs
        ≡ some (kept_info (trim "aa")))
unfolding decode_tx find
handle_broadcast-Kept_example =
    handle_broadcast-Kept toy-Decodes (fresh "new") "sparrow" "aa" one_output manager (λ n. refl)
      refl refl (omega arith) (omega arith)

handle_broadcast-Due_example :
    (now : ℕ) × ((row : BroadcastTx) × (((get_broadcast_tx_by_id now "m"
            (handle_broadcast (fresh "m") "liana" "aa" armed).1.db).0
          ≡ ok row)
        × ((row.broadcast_mode ≡ some "by_block")
            × ((row.scheduled_time ≡ none)
                × ((row.nlocktime ≡ some 900)
                    × ((row.tx_hex ≡ trim "aa")
                        × ((row.source_label ≡ some "liana")
                            × ((row.status ≡ pending) × (row.tampered ≡ some false)))))))))
unfolding decode_tx find
handle_broadcast-Due_example =
    handle_broadcast-Due toy-Decodes (fresh "m") "liana" "aa" one_output armed (λ n. refl) refl refl
      (omega arith) (omega arith) "by_block" none 900 (armed_block refl refl)

armed-Distinct_example :
    let s' = (handle_broadcast (fresh "m") "liana" "aa" armed).1 in
    let s'' = (handle_broadcast (fresh "n") "liana" "bb" s').1 in
    (now : ℕ) × ((now' : ℕ) × ((row : BroadcastTx) × ((row' : BroadcastTx)
          × (((get_broadcast_tx_by_id now "m" s'.db).0 ≡ ok row)
              × (((get_broadcast_tx_by_id now' "n" s''.db).0 ≡ ok row')
                  × ((row.nlocktime ≡ some 900) × (row'.nlocktime ≡ some 902)))))))
unfolding decode_tx find handle_broadcast insert_broadcast_tx get_broadcast_tx_by_id new_row
    store_pending_tx
armed-Distinct_example =
    armed-Distinct toy-Decodes (fresh "m") (fresh "n") "aa" "bb" one_output one_output armed
      (λ n. refl) (λ n. refl) refl refl refl refl refl (omega arith) (omega arith) (omega arith)

pop_client_line-Whole_example :
    (before : List ℕ) × ((after : List ℕ) × ((codes "ab" ++ 10 ∷ codes "c"
          ≡ before ++ (codes "ab" ++ 10 ∷ after))
        × ((codes "c" ≡ before ++ after)
            × (AtLineStart before
                × (NoNewline (codes "ab")
                    × ((is_broadcast_line (codes "ab") ≡ true)
                        ⊎ ((before ≡ [])
                            × All
                                (λ r.
                                  is_broadcast_line (slice (codes "ab" ++ 10 ∷ codes "c") r)
                                  ≡ false)
                                (line_ranges 0 0 (codes "ab" ++ 10 ∷ codes "c")))))))))
unfolding pop_client_line from_codes
pop_client_line-Whole_example =
    pop_client_line-Whole (codes "ab" ++ 10 ∷ codes "c") (codes "ab") (codes "c") "ab" refl

pop_all-Ends_example :
    Drained (codes "ab" ++ 10 ∷ codes "c") (pop_all 4 (codes "ab" ++ 10 ∷ codes "c"))
pop_all-Ends_example = pop_all-Ends 4 (codes "ab" ++ 10 ∷ codes "c") (omega arith)

handle_all-NoBroadcast_example :
    NoBroadcast (handle_all identity "sparrow" ((silent, broadcast_request) ∷ []) connected)
handle_all-NoBroadcast_example =
    handle_all-NoBroadcast identity "sparrow" ((silent, broadcast_request) ∷ []) connected tt

handle_one_subrequest-Tip_example :
    (reply : Value) × (((handle_one_subrequest identity silent "sparrow"
          (subscribing broadcast_request)
          connected).0
        ≡ ok reply)
      × ((reply ≡ tip_reply null 800 "00")
          ⊎ MadeUp
              (str_eq (effective_source new "sparrow") "liana")
              told.config
              800
              "00"
              null
              reply))
handle_one_subrequest-Tip_example =
    handle_one_subrequest-Tip identity silent "sparrow" broadcast_request connected 800 "00" refl
