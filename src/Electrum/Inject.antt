-- ===== src/Electrum/Inject.antt =====
-- src/pool/virtual_mempool.rs: putting retained transactions into the answers of the indexer. A
-- `HashSet` of what the indexer listed is the list of it.
pub mod Complete
pub mod Balance
use broadcast_pool.Prelude.{
  ℕ, zero, suc, ◌+◌, ◌-◌, ◌^◌, ◌%◌, String, Bool, true, false, ◌&&◌, ◌||◌, not, Option, none, some,
  List, [], ◌∷◌, ◌++◌, if◌then◌else◌, ltb, leb, ◌==◌, str_eq, unwrap_or, length, map, filter_map,
}
use broadcast_pool.Pool.Safe.{contains_text}
use broadcast_pool.Json.{
  ℤ, pos, negsuc, Value, null, string, array, object, nil, cons, end, field, to_list, from_list,
  get, as_array, as_str, as_u64, as_i64, nth, and_then, from_u64, from_i64,
}

-- `x as i64` of a `u64`
unfoldable pub u64_as_i64 : ℕ → ℤ
u64_as_i64 n = if ltb n (2 ^ 63) then pos n else negsuc (2 ^ 64 - n - 1)

infixl 60 ◌+ℤ◌
unfoldable pub ◌+ℤ◌ : ℤ → ℤ → ℤ
pos a +ℤ pos b = pos (a + b)
negsuc a +ℤ negsuc b = negsuc (suc (a + b))
pos a +ℤ negsuc b = if ltb b a then pos (a - suc b) else negsuc (b - a)
negsuc a +ℤ pos b = if ltb a b then pos (b - suc a) else negsuc (a - b)

-- The release build's `i64` addition.
unfoldable pub wrap_i64 : ℤ → ℤ
unfolding u64_as_i64
wrap_i64 (pos n) = u64_as_i64 (n % 2 ^ 64)
wrap_i64 (negsuc n) = u64_as_i64 (2 ^ 64 - 1 - n % 2 ^ 64)

abbrev pub i64_field : String → Value → ℤ
i64_field key v = unwrap_or (and_then (get key v) as_i64) (pos 0)

unfoldable pub inject_balance_unconfirmed : Value → ℕ → Value
unfolding get as_i64 and_then u64_as_i64 ◌+ℤ◌ wrap_i64
inject_balance_unconfirmed balance extra_sat =
    if extra_sat == 0
    then balance
    else object (
        field "confirmed" (from_i64 (i64_field "confirmed" balance)) (
          field "unconfirmed"
            (from_i64 (wrap_i64 (i64_field "unconfirmed" balance +ℤ u64_as_i64 extra_sat))) end))

-- `(tx_hash, tx_pos)` of each entry that has both
unfoldable pub utxo_key : Value → Option (String × ℕ)
unfolding get as_str as_u64 and_then
utxo_key u =
    and_then (and_then (get "tx_hash" u) as_str)
      (λ tx. and_then (and_then (get "tx_pos" u) as_u64) (λ pos. some (tx, pos % 2 ^ 32)))

unfoldable pub listed_utxo : String → ℕ → List Value → Bool
unfolding utxo_key
listed_utxo txid tx_pos [] = false
listed_utxo txid tx_pos (u ∷ us) = elim (utxo_key u) [
  | none ↦ listed_utxo txid tx_pos us
  | some (t, p) ↦ (str_eq t txid && (p == tx_pos)) || listed_utxo txid tx_pos us
]

abbrev pub utxo_entry : String × ℕ × ℕ → Value
utxo_entry (txid, tx_pos, value) = object (
    field "height" (from_u64 0) (
      field "tx_hash" (string txid)
        (field "tx_pos" (from_u64 tx_pos) (field "value" (from_u64 value) end))))

new_utxos : List Value → List (String × ℕ × ℕ) → List Value
unfolding listed_utxo
new_utxos existing [] = []
new_utxos existing ((txid, tx_pos, value) ∷ pending) =
    let rest = new_utxos existing pending in
    if listed_utxo txid tx_pos existing then rest else utxo_entry (txid, tx_pos, value) ∷ rest

unfoldable pub inject_listunspent : List Value → List (String × ℕ × ℕ) → List Value
unfolding new_utxos
inject_listunspent utxos pending = utxos ++ new_utxos utxos pending

-- The id that a history entry names.
unfoldable pub history_id : Value → Option String
unfolding get as_str and_then
history_id h = and_then (get "tx_hash" h) as_str

abbrev pub history_entry : String → Value
history_entry txid = object (field "height" (from_u64 0) (field "tx_hash" (string txid) end))

-- The pending ids that `existing` lacks.
unfoldable pub missing : List String → List String → List String
missing existing [] = []
missing existing (txid ∷ pending) =
    let rest = missing existing pending in if contains_text existing txid then rest else txid ∷ rest

-- What both injections of ids do: the list, then an entry for each id that it lacks.
unfoldable pub inject :
    (Value → Option String) → (String → Value) → List Value → List String → List Value
unfolding missing filter_map
inject id entry listed pending = listed ++ map entry (missing (filter_map id listed) pending)

unfoldable pub inject_in_history : List Value → List String → List Value
unfolding history_id inject
inject_in_history history pending = inject history_id history_entry history pending

-- The first element of an entry of the mempool's list, where it is a text.
unfoldable pub mempool_id : Value → Option String
unfolding as_array as_str nth and_then
mempool_id e = and_then (and_then (as_array e) (nth 0)) as_str

abbrev pub mempool_entry : String → Value
mempool_entry txid = array (cons (string txid) (cons (from_u64 0) (cons (from_u64 0) nil)))

abbrev pub empty_parts : List Value
empty_parts = from_u64 0 ∷ array nil ∷ []

-- `[fee_total, tx_list]`, or `[0, []]` for an answer of another shape
unfoldable pub mempool_parts : Value → List Value
unfolding as_array
mempool_parts result =
    let parts = unwrap_or (as_array result) empty_parts in
    if ltb (length parts) 2 then empty_parts else parts

unfoldable pub inject_get_mempool : Value → List String → Value
unfolding mempool_parts mempool_id inject as_array as_i64 nth and_then from_list
inject_get_mempool result [] = result
inject_get_mempool result (txid ∷ txids) =
    let parts = mempool_parts result in
    let fee_total = unwrap_or (and_then (nth 0 parts) as_i64) (pos 0) in
    let tx_list = unwrap_or (and_then (nth 1 parts) as_array) [] in
    let injected = inject mempool_id mempool_entry tx_list (txid ∷ txids) in
    array (cons (from_i64 fee_total) (cons (array (from_list injected)) nil))
