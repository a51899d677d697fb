-- ===== src/Electrum/Headers.antt =====
-- src/electrum_server/mod.rs: the chain tip that a wallet is told. The indexer's answer to a request is
-- an argument.
use broadcast_pool.Prelude.{
  ℕ, zero, suc, ◌+◌, max, String, Bool, false, ◌&&◌, ◌||◌, Option, none, some, if◌then◌else◌,
  str_eq, ltb, leb, ◌==◌, is_none, is_some, is_empty, trim, Result, ok,
}
use broadcast_pool.Json.{
  Serde, Value, string, object, end, field, get, as_array, as_str, as_u64, first, and_then,
  from_u64, number, neg_int,
}
use broadcast_pool.Pool.{Config, PoolManager}
use broadcast_pool.Pool.Safe.{cache_chain_tip}
use broadcast_pool.VirtualHeaders.{Bitcoin, header_hex_at}
use broadcast_pool.Electrum.{JsonRpcRequest}
use broadcast_pool.Electrum.Intercept.{Task, finished, failed, late, result_reply}

unfoldable pub parse_headers_subscribe_result : Value → Option (ℕ × String)
unfolding get as_u64 as_str and_then
parse_headers_subscribe_result msg = and_then (get "result" msg) (λ result.
    and_then (and_then (get "height" result) as_u64) (λ height.
      and_then (and_then (get "hex" result) as_str)
        (λ hex. if (height == 0) || is_empty hex then none else some (height, hex))))

-- `json!` of an error with code -32000
abbrev pub unavailable : Value → String → Value
unavailable id message = object (
    field "error"
      (object (field "code" (number (neg_int 31_999)) (field "message" (string message) end)))
      (field "id" id (field "jsonrpc" (string "2.0") end)))

abbrev pub tip_reply : Value → ℕ → String → Value
tip_reply id height hex =
    result_reply id (object (field "height" (from_u64 height) (field "hex" (string hex) end)))

unfoldable pub virtual_tip_height : Config → Bool → Option ℕ
virtual_tip_height config is_liana =
    let block = config.liana_virtual_block in
    if is_liana && block.enabled && ltb 0 block.target_height
    then some block.target_height
    else none

unfoldable pub should_use_instant_headers_cache : Bool → Config → Bool
unfolding virtual_tip_height
should_use_instant_headers_cache is_liana config = is_none (virtual_tip_height config is_liana)

unfoldable pub virtual_header_in_range : ℕ → Option ℕ → Bool
virtual_header_in_range height none = false
virtual_header_in_range height (some vtip) = leb height vtip

-- A cached tip put into the pool's cache, from an answer of the indexer.
abbrev pub cached_from : Option (ℕ × String) → PoolManager → PoolManager
cached_from none s = s
cached_from (some (height, hex)) s = cache_chain_tip height hex s

module _ ⦃j : Serde⦄ where
  abbrev pub tip_in : Option String → Option (ℕ × String)
  tip_in text = and_then text (λ t. and_then (j.parse (trim t)) parse_headers_subscribe_result)

  unfoldable pub refresh_chain_tip_cache : String → Option String → PoolManager → PoolManager
  unfolding and_then trim parse_headers_subscribe_result cache_chain_tip
  refresh_chain_tip_cache indexer_url answer s =
      if is_empty indexer_url then s else cached_from (tip_in answer) s

  -- Five attempts, of which the first that leaves a tip in the cache is the last.
  abbrev warm : ℕ → String → (ℕ → Option String) → PoolManager → PoolManager
  warm zero url answer s = s
  warm (suc n) url answer s =
      let s' = refresh_chain_tip_cache url (answer n) s in
      let again = warm n url answer s' in if is_some s'.cached_chain_tip then s' else again

  unfoldable pub warm_chain_tip_cache : String → (ℕ → Option String) → PoolManager → PoolManager
  unfolding refresh_chain_tip_cache
  warm_chain_tip_cache indexer_url answer s =
      if is_empty indexer_url then s else warm 5 indexer_url answer s

module _ ⦃k : Bitcoin⦄ where
  abbrev header_reply : Value → Result (Option String) → Option Value
  header_reply id (ok (some hex)) = some (result_reply id (string hex))
  header_reply id _ = none

  -- The height that `blockchain.block.header` asks for.
  abbrev pub asked_height : JsonRpcRequest → Option ℕ
  asked_height request =
      if str_eq request.method "blockchain.block.header"
      then and_then (and_then (and_then request.params as_array) first) as_u64
      else none

  unfoldable pub serve_virtual_block_header : JsonRpcRequest → PoolManager → Option ℕ → Option Value
  unfolding and_then as_array first as_u64 virtual_header_in_range header_hex_at
  serve_virtual_block_header request s virtual_tip = and_then (asked_height request) (λ height.
      if virtual_header_in_range height virtual_tip
      then and_then s.cached_chain_tip
          (λ tip. header_reply request.id (header_hex_at tip.0 tip.1 height))
      else none)

  abbrev pub tip_or_none : Value → ℕ → Result (Option String) → Option Value
  tip_or_none id up_to (ok (some hex)) = some (tip_reply id up_to hex)
  tip_or_none id up_to _ = none

  -- The made-up tip for an armed session, where the real one is known.
  unfoldable pub virtual_tip_reply : Value → Option ℕ → PoolManager → Option Value
  unfolding and_then header_hex_at
  virtual_tip_reply id virtual_tip s = and_then virtual_tip (λ vtip.
      and_then s.cached_chain_tip (λ tip.
        let up_to = max vtip (tip.0 + 1) in tip_or_none id up_to (header_hex_at tip.0 tip.1 up_to)))

  module _ ⦃j : Serde⦄ where
    -- An answer of the indexer in time that holds a tip is passed on.
    abbrev usable : Task (Option String) → Option (Value × (ℕ × String))
    usable (finished text) = and_then text (λ t.
        and_then (j.parse (trim t))
          (λ msg. and_then (parse_headers_subscribe_result msg) (λ tip. some (msg, tip))))
    usable (failed e) = none
    usable late = none

    abbrev pub retry_message : String
    retry_message = "Indexer temporarily unavailable — retry in a few seconds"

    abbrev from_indexer : Value → Option (Value × (ℕ × String)) → PoolManager → Value × PoolManager
    from_indexer id (some (msg, (height, hex))) s = (msg, cache_chain_tip height hex s)
    from_indexer id none s = (unavailable id retry_message, s)

    -- The cached tip, which is then refreshed in the background, or else the indexer's.
    abbrev pub real_tip :
        JsonRpcRequest
        → String
        → Task (Option String)
        → Option String
        → Option (ℕ × String)
        → PoolManager
        → Value × PoolManager
    real_tip request url answer refreshed (some (height, hex)) s =
        (tip_reply request.id height hex, refresh_chain_tip_cache url refreshed s)
    real_tip request url answer refreshed none s =
        from_indexer request.id (if is_empty url then none else usable answer) s

    abbrev pub first_reply : Option Value → PoolManager → Value × PoolManager → Value × PoolManager
    first_reply (some reply) s rest = (reply, s)
    first_reply none s rest = rest

    -- `answer` is the indexer's, `refreshed` the one that the refresh gets.
    unfoldable pub handle_headers_subscribe :
        JsonRpcRequest
        → String
        → Option ℕ
        → Task (Option String)
        → Option String
        → PoolManager
        → Value × PoolManager
    unfolding virtual_tip_reply refresh_chain_tip_cache and_then trim parse_headers_subscribe_result
        cache_chain_tip
    handle_headers_subscribe request indexer_url virtual_tip answer refreshed s =
        first_reply (virtual_tip_reply request.id virtual_tip s) s
          (real_tip request indexer_url answer refreshed s.cached_chain_tip s)
