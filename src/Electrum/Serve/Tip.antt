-- ===== src/Electrum/Serve/Tip.antt =====
-- Which chain tip a wallet is told (src/electrum_server/mod.rs).
use broadcast_pool.Prelude.{
  ℕ, ◌+◌, ◌<◌, ◌≤◌, max, String, Bool, true, Option, none, some, Result, ok, err, ◌≡◌, refl, ◌⊎◌,
  inl, inr, str_eq, arith, Option-cases, ◌∙◌, ap, sym, subst,
}
use mathlib.Core.Path.{ap₂}
use broadcast_pool.Platform.{Platform}
use broadcast_pool.Json.{Serde, Value, and_then}
use broadcast_pool.Transactions.{Codec}
use broadcast_pool.Pool.{Config, PoolManager}
use broadcast_pool.VirtualHeaders.{Bitcoin, header_hex_at}
use broadcast_pool.Electrum.{JsonRpcRequest}
use broadcast_pool.Electrum.Source.{effective_source}
use broadcast_pool.Electrum.Intercept.{Task}
use broadcast_pool.Electrum.Headers.{
  tip_reply, virtual_tip_height, virtual_tip_reply, handle_headers_subscribe, tip_or_none,
  first_reply, real_tip,
}
use broadcast_pool.Electrum.Serve.{Identity, Indexer, Connection, handle_one_subrequest, vtip_of}

module _ ⦃b : Bitcoin⦄ where
  -- What a made-up tip is.
  abbrev pub MadeUp : Bool → Config → ℕ → String → Value → Value → Type 0
  MadeUp is_liana config height hex id reply =
      (is_liana ≡ true)
      × ((config.liana_virtual_block.enabled ≡ true)
          × ((up_to : ℕ) × ((made : String) × ((height < up_to)
                  × ((config.liana_virtual_block.target_height ≤ up_to)
                      × ((header_hex_at height hex up_to ≡ ok (some made))
                          × (reply ≡ tip_reply id up_to made)))))))

  armed-only :
      (config : Config) (is_liana : Bool) (vtip : ℕ)
      → virtual_tip_height config is_liana ≡ some vtip
      → (is_liana ≡ true)
        × ((config.liana_virtual_block.enabled ≡ true)
            × (config.liana_virtual_block.target_height ≡ vtip))
  unfolding virtual_tip_height
  armed-only config is_liana vtip e = ground arith

  shown :
      (id : Value) (up_to : ℕ) (reply : Value) (o : Result (Option String))
      {q : Result (Option String)}
      → q ≡ o
      → tip_or_none id up_to o ≡ some reply
      → (made : String) × ((q ≡ ok (some made)) × (reply ≡ tip_reply id up_to made))
  shown id up_to reply (ok (some made)) e f = (made, (e, ground arith))
  shown id up_to reply (ok none) e f = absurd (ground arith)
  shown id up_to reply (err m) e f = absurd (ground arith)

  made-up :
      (id : Value) (config : Config) (is_liana : Bool) (s : PoolManager) (height : ℕ) (hex : String)
      (reply : Value)
      → s.cached_chain_tip ≡ some (height, hex)
      → virtual_tip_reply id (virtual_tip_height config is_liana) s ≡ some reply
      → MadeUp is_liana config height hex id reply
  unfolding virtual_tip_reply and_then
  made-up id config is_liana s height hex reply tip e =
      elim (Option-cases (virtual_tip_height config is_liana)) [
        | inl n ↦ absurd (ground arith)
        | inr (vtip, v) ↦
            let (l, (on, same)) = armed-only config is_liana vtip v in
            let up_to = max vtip (height + 1) in
            let f : tip_or_none id up_to (header_hex_at height hex up_to) ≡ some reply =
              sym (
                ap₂
                  (λ x y. and_then x (λ t. and_then y (λ tip.
                    tip_or_none id (max t (tip.0 + 1))
                      (header_hex_at tip.0 tip.1 (max t (tip.0 + 1))))))
                  v tip)
              ∙ e in
            let (made, (h, r)) = shown id up_to reply (header_hex_at height hex up_to) refl f in
            (l, (on, (up_to, (made, (omega arith, (omega (arith, same), (h, r)))))))
      ]

  module _ ⦃p : Platform⦄ ⦃c : Codec⦄ ⦃j : Serde⦄ where
    subscribe-Tip :
        (request : JsonRpcRequest) (url : String) (is_liana : Bool) (t : Task (Option String))
        (refreshed : Option String) (s : PoolManager) (height : ℕ) (hex : String)
        → s.cached_chain_tip ≡ some (height, hex)
        → let reply =
            (handle_headers_subscribe request url
              (virtual_tip_height s.config is_liana)
              t
              refreshed
              s).0 in
          (reply ≡ tip_reply request.id height hex)
          ⊎ MadeUp is_liana s.config height hex request.id reply
    unfolding handle_headers_subscribe
    subscribe-Tip request url is_liana t refreshed s height hex tip =
        elim (Option-cases
          (virtual_tip_reply request.id (virtual_tip_height s.config is_liana) s)) [
            | inl n ↦ inl (
                ap
                  (λ o. (first_reply o s (real_tip request url t refreshed s.cached_chain_tip s)).0)
                  n
                ∙ ap (λ o. (real_tip request url t refreshed o s).0) tip)
            | inr (reply, e) ↦ inr (
                subst (MadeUp is_liana s.config height hex request.id)
                  (sym (
                    ap
                      (λ o.
                        (first_reply o s (real_tip request url t refreshed s.cached_chain_tip s)).0)
                      e))
                  (made-up request.id s.config is_liana s height hex reply tip e))
          ]

    abbrev pub subscribing : JsonRpcRequest → JsonRpcRequest
    subscribing r = record r { method = "blockchain.headers.subscribe" }

    -- Where the real tip is cached, a wallet that subscribes to headers is told it, or it is a session of
    -- Liana with the virtual block enabled, and is told a made-up header above the real tip and not
    -- below the armed height.
    pub handle_one_subrequest-Tip :
        (i : Identity) (indexer : Indexer) (label : String) (r : JsonRpcRequest) (k : Connection)
        (height : ℕ) (hex : String)
        → k.pool.cached_chain_tip ≡ some (height, hex)
        → (reply : Value) × (((handle_one_subrequest i indexer label (subscribing r) k).0
              ≡ ok reply)
            × ((reply ≡ tip_reply r.id height hex)
                ⊎ MadeUp
                    (str_eq (effective_source k.session label) "liana")
                    k.pool.config
                    height
                    hex
                    r.id
                    reply))
    unfolding handle_one_subrequest
    handle_one_subrequest-Tip i indexer label r k height hex tip = (
      (handle_headers_subscribe (subscribing r) indexer.url (vtip_of label k)
          (indexer.answer (subscribing r)) indexer.refreshed k.pool).0,
      (
        refl,
        subscribe-Tip (subscribing r) indexer.url _ (indexer.answer (subscribing r))
            indexer.refreshed k.pool height hex tip,
      ),
    )
