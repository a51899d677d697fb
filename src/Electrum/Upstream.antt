-- ===== src/Electrum/Upstream.antt =====
-- src/electrum_server/mod.rs: what the indexer answers and announces, changed by what the pool retains.
use broadcast_pool.Prelude.{
  String, Bool, true, false, ◌||◌, Option, none, some, List, [], ◌∷◌, ◌++◌, if◌then◌else◌, str_eq,
  unwrap_or, is_some, trim, concat,
}
use broadcast_pool.Platform.{Platform}
use broadcast_pool.Json.{
  Serde, Value, null, string, array, get, set, same, as_array, as_str, first, and_then, from_list,
}
use broadcast_pool.Transactions.{Codec}
use broadcast_pool.Pool.{PoolManager}
use broadcast_pool.Pool.Safe.{contains_text}
use broadcast_pool.Pool.Mempool.{
  get_pending_txids_for_scripthash, get_pending_utxos_for_scripthash, get_pending_unconfirmed_value,
}
use broadcast_pool.Electrum.{JsonRpcRequest, SessionState}
use broadcast_pool.Electrum.Inject.{
  inject_in_history, inject_balance_unconfirmed, inject_listunspent, inject_get_mempool,
}
use broadcast_pool.Electrum.Status.{compute_modified_status_hash}

abbrev pub Tracked : Type 0
Tracked = List (Value × String × String)

-- `HashMap::insert` and `HashMap::remove`
unfoldable pub put_method : Value → String × String → Tracked → Tracked
unfolding same
put_method id (method, sh) [] = (id, method, sh) ∷ []
put_method id (method, sh) ((k, m, h) ∷ rest) =
    let later = (k, m, h) ∷ put_method id (method, sh) rest in
    if same k id then (id, method, sh) ∷ rest else later

unfoldable pub take_method : Value → Tracked → Option (String × String) × Tracked
unfolding same
take_method id [] = (none, [])
take_method id ((k, m, h) ∷ rest) =
    let (found, left) = take_method id rest in
    if same k id then (some (m, h), rest) else (found, (k, m, h) ∷ left)

abbrev pub add_text : String → List String → List String
add_text s xs = if contains_text xs s then xs else xs ++ s ∷ []

unfoldable pub scripthash_from_params : Option Value → Option String
unfolding and_then as_array first as_str
scripthash_from_params params = and_then (and_then (and_then params as_array) first) as_str

-- The methods whose answers are changed.
unfoldable pub is_tracked : String → Bool
is_tracked method =
    str_eq method "blockchain.scripthash.subscribe"
    || str_eq method "blockchain.scripthash.get_history"
    || str_eq method "blockchain.scripthash.get_balance"
    || str_eq method "blockchain.scripthash.listunspent"
    || str_eq method "blockchain.scripthash.get_mempool"

unfoldable pub track_request : JsonRpcRequest → SessionState → SessionState
unfolding scripthash_from_params is_tracked put_method
track_request request session =
    let sh = unwrap_or (scripthash_from_params request.params) "" in
    if is_tracked request.method
    then record session {
      subscribed_scripthashes =
          if str_eq request.method "blockchain.scripthash.subscribe"
          then add_text sh session.subscribed_scripthashes
          else session.subscribed_scripthashes;
      pending_methods = put_method request.id (request.method, sh) session.pending_methods;
    }
    else session

-- `if let Some(result) = msg.get_mut("result")…`
abbrev on_result : (Value → Value) → Value → Value
on_result f msg = elim (get "result" msg) [ none ↦ msg | some r ↦ set "result" (f r) msg ]

abbrev on_list : (List Value → List Value) → Value → Value
on_list f msg = elim (and_then (get "result" msg) as_array) [
  | none ↦ msg
  | some vs ↦ set "result" (array (from_list (f vs))) msg
]

module _ ⦃p : Platform⦄ ⦃c : Codec⦄ where
  -- Only what is pending is hashed, not the history of the indexer.
  abbrev with_status : List String → Value → Value
  with_status pending msg = elim (compute_modified_status_hash [] pending) [
    | none ↦ msg
    | some hash ↦ set "result" (string hash) msg
  ]

  unfoldable pub modify_upstream_response : String → String → PoolManager → Value → Value
  unfolding get set as_array and_then from_list inject_in_history inject_balance_unconfirmed
      inject_listunspent inject_get_mempool compute_modified_status_hash
      get_pending_txids_for_scripthash get_pending_utxos_for_scripthash
      get_pending_unconfirmed_value
  modify_upstream_response method sh s msg =
      let pending = get_pending_txids_for_scripthash sh s in
      if str_eq method "blockchain.scripthash.get_history"
      then on_list (λ h. inject_in_history h pending) msg
      else if str_eq method "blockchain.scripthash.subscribe"
      then with_status pending msg
      else if str_eq method "blockchain.scripthash.get_balance"
      then on_result (λ r. inject_balance_unconfirmed r (get_pending_unconfirmed_value sh s)) msg
      else if str_eq method "blockchain.scripthash.listunspent"
      then on_list (λ u. inject_listunspent u (get_pending_utxos_for_scripthash sh s)) msg
      else if str_eq method "blockchain.scripthash.get_mempool"
      then on_result (λ r. inject_get_mempool r pending) msg
      else msg

  -- The second parameter, where there is one, becomes the status.
  abbrev put_status : String → List Value → List Value
  put_status hash (sh ∷ old ∷ rest) = sh ∷ string hash ∷ rest
  put_status hash params = params

  abbrev changed_params : PoolManager → List Value → List Value
  changed_params s [] = []
  changed_params s (v ∷ vs) =
      let sh = unwrap_or (as_str v) "" in
      elim (compute_modified_status_hash [] (get_pending_txids_for_scripthash sh s)) [
        | none ↦ v ∷ vs
        | some hash ↦ put_status hash (v ∷ vs)
      ]

  -- Without a pending transaction there is no status, and the notification stays as it is.
  unfoldable pub modify_upstream_notification : PoolManager → Value → Value
  unfolding get set as_str as_array and_then from_list compute_modified_status_hash
      get_pending_txids_for_scripthash
  modify_upstream_notification s msg =
      if str_eq (unwrap_or (and_then (get "method" msg) as_str) "")
        "blockchain.scripthash.subscribe"
      then elim (and_then (get "params" msg) as_array) [
        | none ↦ msg
        | some params ↦ set "params" (array (from_list (changed_params s params))) msg
      ]
      else msg

  abbrev is_null : Value → Bool
  is_null null = true
  is_null _ = false

  -- An answer takes its request's method and script hash out of the session.
  abbrev answered : Value → SessionState → PoolManager → Value × SessionState
  answered msg session s = elim (get "id" msg) [
    | none ↦ (msg, session)
    | some id ↦ if is_null id then (msg, session) else (
      elim (take_method id session.pending_methods).0 [
        | none ↦ msg
        | some (method, sh) ↦ modify_upstream_response method sh s msg
      ],
      record session { pending_methods = (take_method id session.pending_methods).1 },
    )
  ]

  module _ ⦃j : Serde⦄ where
    -- The line as text in and out; a line that is no JSON goes on as it is.
    unfoldable pub process_indexer_line :
        String → SessionState → PoolManager → String × SessionState
    unfolding trim get take_method modify_upstream_response modify_upstream_notification concat
    process_indexer_line line session s = elim (j.parse (trim line)) [
      | none ↦ (concat line "\n", session)
      | some msg ↦
          let (msg', session') = answered msg session s in
          let out =
            if is_some (get "method" msg') then modify_upstream_notification s msg' else msg' in
          (concat (j.print out) "\n", session')
    ]
