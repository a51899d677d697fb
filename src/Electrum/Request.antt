-- ===== src/Electrum/Request.antt =====
-- src/electrum_server/mod.rs: reading the requests of a wallet's line.
use broadcast_pool.Prelude.{
  String, Bool, ◌||◌, Option, none, some, List, [], ◌∷◌, if◌then◌else◌, str_eq, or_else, filter_map,
  unwrap_or, codes, contains, trim, lower, is_some_and,
}
use mathlib.Core.Option
use broadcast_pool.Json.{
  Serde, Value, null, bool, number, string, array, object, get, as_array, as_str, first, and_then,
  find_field, to_list,
}

unfoldable pub is_broadcast_method : String → Bool
is_broadcast_method method =
    str_eq method "blockchain.transaction.broadcast"
    || str_eq method "blockchain.transaction.broadcast_package"

unfoldable pub line_mentions_tx_rpc : String → Bool
unfolding lower contains
line_mentions_tx_rpc line =
    let text = lower (codes line) in
    contains (codes "broadcast") text || contains (codes "transaction") text

unfoldable pub line_looks_like_broadcast : String → Bool
unfolding contains
line_looks_like_broadcast line =
    contains (codes "blockchain.transaction.broadcast") (codes line)
    || contains (codes "blockchain.transaction.broadcast_package") (codes line)

-- `item.get("method").and_then(as_str)`
unfoldable pub method_of : Value → Option String
unfolding get as_str and_then
method_of v = and_then (get "method" v) as_str

abbrev string_value : Option Value → Option String
string_value (some (string s)) = some s
string_value _ = none

unfoldable pub params_first_string : Value → Option String
unfolding to_list first as_str and_then find_field
params_first_string (array vs) = and_then (first (to_list vs)) as_str
params_first_string (string s) = some s
params_first_string (object fs) = or_else (string_value (find_field "raw_tx" fs)) (
    or_else (string_value (find_field "tx" fs))
      (or_else (string_value (find_field "transaction" fs)) (string_value (find_field "hex" fs))))
params_first_string null = none
params_first_string (bool _) = none
params_first_string (number _) = none

unfoldable pub json_rpc_id : Value → Value
unfolding get
json_rpc_id v = unwrap_or (get "id" v) null

package_hex : Value → Option String
unfolding and_then as_array first as_str
package_hex params =
    and_then (and_then (and_then (and_then (as_array params) first) as_array) first) as_str

unfoldable pub extract_broadcast_from_value : Value → Option (Value × String)
unfolding and_then get as_str is_broadcast_method json_rpc_id package_hex params_first_string
extract_broadcast_from_value v = and_then (and_then (get "method" v) as_str) (λ method.
    if is_broadcast_method method
    then and_then (get "params" v) (λ params.
      if str_eq method "blockchain.transaction.broadcast_package"
      then and_then (package_hex params) (λ hex. some (json_rpc_id v, hex))
      else and_then (params_first_string params) (λ hex. some (json_rpc_id v, hex)))
    else none)

unfoldable pub first_broadcast : List Value → Option (Value × String)
unfolding extract_broadcast_from_value
first_broadcast [] = none
first_broadcast (v ∷ vs) = or_else (extract_broadcast_from_value v) (first_broadcast vs)

-- The items of a batch, or the one value.
unfoldable pub batch_items : Value → List Value
unfolding to_list
batch_items (array vs) = to_list vs
batch_items v = v ∷ []

abbrev first_broadcast_id : List Value → Option Value
first_broadcast_id [] = none
first_broadcast_id (v ∷ vs) =
    if is_some_and (method_of v) is_broadcast_method
    then some (json_rpc_id v)
    else first_broadcast_id vs

module _ ⦃j : Serde⦄ where
  unfoldable pub peek_line_methods : String → Option (List String)
  unfolding trim and_then as_array filter_map method_of
  peek_line_methods line = and_then (j.parse (trim line)) (λ v. elim (as_array v) [
    | some items ↦ some (filter_map method_of items)
    | none ↦ Option.map (λ m. m ∷ []) (method_of v)
  ])

  unfoldable pub extract_broadcast_hex : String → Option (Value × String)
  unfolding trim and_then batch_items first_broadcast
  extract_broadcast_hex line = and_then (j.parse (trim line)) (λ v. first_broadcast (batch_items v))

  unfoldable pub line_json_rpc_id : String → Value
  unfolding trim as_array method_of is_broadcast_method json_rpc_id
  line_json_rpc_id line = elim (j.parse (trim line)) [
    | none ↦ null
    | some v ↦ elim (as_array v) [
      | none ↦ json_rpc_id v
      | some items ↦ unwrap_or (first_broadcast_id items) (json_rpc_id v)
    ]
  ]
