-- ===== src/Electrum/Serve.antt =====
-- src/electrum_server/mod.rs: the answer to one request of a wallet.
pub mod Forwarded
pub mod Tip
use broadcast_pool.Prelude.{
  ℕ, String, Bool, true, false, ◌&&◌, ◌||◌, not, Option, none, some, List, [], ◌∷◌, ◌++◌,
  if◌then◌else◌, str_eq, unwrap_or, is_empty, concat, map, trim, Result, ok, err,
}
use broadcast_pool.Platform.{Platform}
use broadcast_pool.Json.{
  Serde, Value, null, bool, number, neg_int, string, array, object, cons, nil, end, field, get,
  as_array, as_str, as_u64, first, nth, and_then, from_list, from_u64,
}
use broadcast_pool.Transactions.{Codec}
use broadcast_pool.Pool.{Config, PoolManager}
use broadcast_pool.Pool.Safe.{watch_scripthash, contains_text}
use broadcast_pool.Pool.Lookup.{lookup_tx_hex}
use broadcast_pool.Pool.Mempool.{get_pending_txids_for_scripthash}
use broadcast_pool.VirtualHeaders.{Bitcoin}
use broadcast_pool.Electrum.{JsonRpcRequest, SessionState}
use broadcast_pool.Electrum.Inject.{inject_get_mempool, history_entry}
use broadcast_pool.Electrum.Status.{compute_modified_status_hash}
use broadcast_pool.Electrum.Request.{is_broadcast_method}
use broadcast_pool.Electrum.Source.{effective_source}
use broadcast_pool.Electrum.Intercept.{Task, finished, failed, late, result_reply}
use broadcast_pool.Electrum.Headers.{
  virtual_tip_height, serve_virtual_block_header, handle_headers_subscribe, unavailable,
}
use broadcast_pool.Electrum.Upstream.{
  scripthash_from_params, track_request, take_method, modify_upstream_response, add_text,
}

-- What the build and the configuration say, and the number 0.00001 as JSON.
pub record Identity : Type 0 where
  pub version : String
  pub genesis : String
  pub small_fee : Value

-- The indexer: its address, its answer to a request, and the one to a refresh of the tip.
pub record Indexer : Type 0 where
  pub url : String
  pub answer : JsonRpcRequest → Task (Option String)
  pub refreshed : Option String

-- A connection. `forwarded` is a ghost field: what `forward_subrequest_sync` sent, oldest first.
pub record Connection : Type 0 where
  pub session : SessionState
  pub pool : PoolManager
  pub forwarded : List JsonRpcRequest

unfoldable pub is_local_handshake_method : String → Bool
is_local_handshake_method method =
    str_eq method "server.version"
    || str_eq method "server.banner"
    || str_eq method "server.ping"
    || str_eq method "server.features"

abbrev features : Identity → Value
features i = object (
    field "broadcast_pool" (bool true) (
      field "genesis_hash" (string i.genesis) (
        field "hash_function" (string "sha256") (
          field "protocol_max" (string "1.4") (
            field "protocol_min" (string "1.0") (
              field "protocol_version" (string "1.4") (
                field "server_version" (string (concat "broadcast-pool " i.version)) (
                  field "sparrow_tor_warning"
                    (string
                      "Disable Sparrow Settings→Network proxy/Tor or broadcasts bypass this pool")
                    end))))))))

unfoldable pub local_electrum_response : Identity → JsonRpcRequest → Option Value
unfolding concat
local_electrum_response i request =
    if str_eq request.method "server.version"
    then some (
        result_reply request.id
          (array (cons (string "broadcast-pool Electrum") (cons (string "1.4") nil))))
    else if str_eq request.method "server.banner"
    then some (
        result_reply request.id (
          string (
            concat "broadcast-pool "
              (concat i.version " - disable Sparrow Tor proxy so broadcasts reach this pool"))))
    else if str_eq request.method "server.ping"
    then some (result_reply request.id (bool true))
    else if str_eq request.method "server.features"
    then some (result_reply request.id (features i))
    else none

unfoldable pub local_fast_response : Identity → JsonRpcRequest → Option Value
unfolding and_then as_array first as_u64
local_fast_response i request =
    if str_eq request.method "blockchain.estimatefee" || str_eq request.method "blockchain.relayfee"
    then some (result_reply request.id i.small_fee)
    else if str_eq request.method "mempool.get_fee_histogram"
    then some (result_reply request.id (array nil))
    else if str_eq request.method "blockchain.block.stats"
    then some (
        result_reply request.id (
          object (
            field "height"
              (from_u64
                (unwrap_or (and_then (and_then (and_then request.params as_array) first) as_u64) 0))
              (field "median_fee" i.small_fee (field "time" (from_u64 0) end)))))
    else none

unfoldable pub build_scripthash_mempool_result : String → List String → Value
unfolding inject_get_mempool from_list
build_scripthash_mempool_result method pending =
    if str_eq method "blockchain.scripthash.get_mempool"
    then inject_get_mempool (array (cons (from_u64 0) (cons (array nil) nil))) pending
    else array (from_list (map history_entry pending))

unfoldable pub track_scripthash_interest : String → Connection → Connection
unfolding watch_scripthash
track_scripthash_interest sh c = if is_empty sh then c else record c {
  session = record c.session {
    subscribed_scripthashes = add_text sh c.session.subscribed_scripthashes;
  };
  pool = watch_scripthash sh c.pool;
}

-- The interest of a request in a script hash, where its parameters name one.
abbrev interest : Option String → Connection → Connection
interest none c = c
interest (some sh) c = track_scripthash_interest sh c

abbrev pending_of : Option String → Connection → List String
pending_of none c = []
pending_of (some sh) c = get_pending_txids_for_scripthash sh c.pool

abbrev unless_empty : List String → Value → Option Value
unless_empty [] v = none
unless_empty (_ ∷ _) v = some v

abbrev as_bool : Value → Option Bool
as_bool (bool b) = some b
as_bool _ = none

module _ ⦃p : Platform⦄ ⦃c : Codec⦄ where
  -- `blockchain.transaction.get` without `verbose`, from the pool
  abbrev pooled_tx : JsonRpcRequest → PoolManager → Option Value
  pooled_tx request s = and_then (and_then request.params as_array) (λ params.
      and_then (and_then (nth 0 params) as_str) (λ txid.
        if unwrap_or (and_then (nth 1 params) as_bool) false
        then none
        else and_then (lookup_tx_hex txid s) (λ hex. some (result_reply request.id (string hex)))))

  -- The answer of the pool alone to a request about a script hash or a transaction.
  unfoldable pub pool_answer : JsonRpcRequest → Connection → Option Value
  unfolding and_then as_array nth as_str scripthash_from_params get_pending_txids_for_scripthash
      build_scripthash_mempool_result compute_modified_status_hash lookup_tx_hex
  pool_answer request k =
      let pending = pending_of (scripthash_from_params request.params) k in
      if str_eq request.method "blockchain.scripthash.get_history"
        || str_eq request.method "blockchain.scripthash.get_mempool"
      then unless_empty pending
          (result_reply request.id (build_scripthash_mempool_result request.method pending))
      else if str_eq request.method "blockchain.scripthash.subscribe"
      then and_then (compute_modified_status_hash [] pending)
          (λ hash. some (result_reply request.id (string hash)))
      else if str_eq request.method "blockchain.transaction.get"
      then pooled_tx request k.pool
      else none

  abbrev pub is_watched : String → Bool
  is_watched method =
      str_eq method "blockchain.scripthash.get_history"
      || str_eq method "blockchain.scripthash.get_mempool"
      || str_eq method "blockchain.scripthash.subscribe"

  module _ ⦃j : Serde⦄ where
    abbrev gone : JsonRpcRequest → Value
    gone request = unavailable request.id "Indexer temporarily unavailable"

    abbrev understood : JsonRpcRequest → Connection → Option Value → Result Value × Connection
    understood request k none = (err "invalid JSON", k)
    understood request k (some msg) =
        let (found, left) = take_method request.id k.session.pending_methods in
        (
          ok (elim found [
            | none ↦ msg
            | some (method, sh) ↦ modify_upstream_response method sh k.pool msg
          ]),
          record k { session = record k.session { pending_methods = left } },
        )

    abbrev after_forward :
        JsonRpcRequest → Connection → Task (Option String) → Result Value × Connection
    after_forward request k (finished (some text)) = understood request k (j.parse (trim text))
    after_forward request k (finished none) = (ok (gone request), k)
    after_forward request k (failed e) = (err e, k)
    after_forward request k late = (ok (gone request), k)

    unfoldable pub forward_subrequest_sync :
        Indexer → JsonRpcRequest → Connection → Result Value × Connection
    unfolding is_broadcast_method track_request trim take_method modify_upstream_response
    forward_subrequest_sync indexer request k =
        if is_broadcast_method request.method
        then (err "broadcast must not be forwarded to upstream electrs", k)
        else after_forward request
            (record k {
              session = track_request request k.session;
              forwarded = k.forwarded ++ request ∷ [];
            })
            (indexer.answer request)

    module _ ⦃b : Bitcoin⦄ where
      abbrev pub vtip_of : String → Connection → Option ℕ
      vtip_of source_label k =
          virtual_tip_height k.pool.config
            (str_eq (effective_source k.session source_label) "liana")

      -- The tip for a session; a request for it in time without a cached tip goes to the indexer.
      abbrev subscribe_headers :
          Indexer → String → JsonRpcRequest → Connection → Result Value × Connection
      subscribe_headers indexer source_label request k =
          let (reply, s) =
            handle_headers_subscribe request indexer.url (vtip_of source_label k)
              (indexer.answer request) indexer.refreshed k.pool in
          (
            ok reply,
            record k { session = record k.session { subscribed_headers = true }; pool = s },
          )

      abbrev forward_rest : Indexer → JsonRpcRequest → Connection → Result Value × Connection
      forward_rest indexer request k =
          if is_empty indexer.url
          then (ok (gone request), k)
          else forward_subrequest_sync indexer request k

      abbrev header_or_forward :
          Indexer → String → JsonRpcRequest → Connection → Result Value × Connection
      header_or_forward indexer source_label request k =
          if str_eq request.method "blockchain.headers.subscribe"
          then subscribe_headers indexer source_label request k
          else elim (serve_virtual_block_header request k.pool (vtip_of source_label k)) [
            | some reply ↦ (ok reply, k)
            | none ↦ forward_rest indexer request k
          ]

      abbrev pub dispatch :
          Indexer → String → JsonRpcRequest → Connection → Result Value × Connection
      dispatch indexer source_label request k = elim (pool_answer request k) [
        | some reply ↦ (ok reply, k)
        | none ↦ header_or_forward indexer source_label request k
      ]

      abbrev must_intercept : JsonRpcRequest → Value
      must_intercept request = object (
          field "error"
            (object (
              field "code" (number (neg_int 32_602))
                (field "message" (string (concat request.method " must use intercept path")) end)))
            (field "id" request.id (field "jsonrpc" (string "2.0") end)))

      unfoldable pub handle_one_subrequest :
          Identity → Indexer → String → JsonRpcRequest → Connection → Result Value × Connection
      unfolding is_local_handshake_method local_electrum_response local_fast_response
          is_broadcast_method concat scripthash_from_params track_scripthash_interest pool_answer
          virtual_tip_height effective_source serve_virtual_block_header handle_headers_subscribe
          forward_subrequest_sync
      handle_one_subrequest i indexer source_label request k =
          if is_local_handshake_method request.method
          then elim (local_electrum_response i request) [
            | some reply ↦ (ok reply, k)
            | none ↦ (err (concat "no local response for " request.method), k)
          ]
          else elim (local_fast_response i request) [
            | some reply ↦ (ok reply, k)
            | none ↦
                if is_broadcast_method request.method
                then (ok (must_intercept request), k)
                else dispatch indexer source_label request (
                    if is_watched request.method
                    then interest (scripthash_from_params request.params) k
                    else k)
          ]
