-- ===== src/Electrum/Serve/Forwarded.antt =====
-- What a wallet's requests send to the indexer (src/electrum_server/mod.rs).
use broadcast_pool.Prelude.{
  String, false, Option, none, some, List, [], ◌∷◌, is_empty, All, All-append, Result, ok, ◌≡◌,
  refl, if-cases, subst, sym, arith, str_eq, trim,
}
use broadcast_pool.Platform.{Platform}
use broadcast_pool.Json.{Serde, Value}
use broadcast_pool.Transactions.{Codec}
use broadcast_pool.VirtualHeaders.{Bitcoin}
use broadcast_pool.Electrum.{JsonRpcRequest}
use broadcast_pool.Electrum.Request.{is_broadcast_method}
use broadcast_pool.Electrum.Intercept.{Task, finished, failed, late}
use broadcast_pool.Electrum.Serve.{
  Identity, Indexer, Connection, handle_one_subrequest, forward_subrequest_sync, pool_answer,
  local_electrum_response, local_fast_response, is_local_handshake_method,
  track_scripthash_interest, dispatch, header_or_forward, interest, understood, after_forward,
  is_watched,
}
use broadcast_pool.Electrum.Headers.{serve_virtual_block_header}
use broadcast_pool.Electrum.Upstream.{scripthash_from_params}

abbrev pub NoBroadcast : Connection → Type 0
NoBroadcast k = All (λ r. is_broadcast_method r.method ≡ false) k.forwarded

interest-forwarded : (sh : Option String) (k : Connection) → (interest sh k).forwarded ≡ k.forwarded
unfolding track_scripthash_interest
interest-forwarded none k = refl
interest-forwarded (some sh) k = ground arith

abbrev Clean : Result Value × Connection → Type 0
Clean out = NoBroadcast out.1

-- A reply leaves the connection as it is; without one the rest decides.
reply_or :
    (k : Connection) (o : Option Value) (rest : Result Value × Connection)
    → NoBroadcast k
    → Clean rest
    → Clean (elim o [ some reply ↦ (ok reply, k) | none ↦ rest ])
reply_or k none rest h r = r
reply_or k (some reply) rest h r = h

module _ ⦃p : Platform⦄ ⦃c : Codec⦄ ⦃j : Serde⦄ where
  understood-Clean :
      (r : JsonRpcRequest) (k : Connection) (o : Option Value)
      → NoBroadcast k
      → Clean (understood r k o)
  understood-Clean r k none h = h
  understood-Clean r k (some msg) h = h

  after_forward-Clean :
      (r : JsonRpcRequest) (k : Connection) (t : Task (Option String))
      → NoBroadcast k
      → Clean (after_forward r k t)
  after_forward-Clean r k (finished (some text)) h = understood-Clean r k (j.parse (trim text)) h
  after_forward-Clean r k (finished none) h = h
  after_forward-Clean r k (failed e) h = h
  after_forward-Clean r k late h = h

  forward-Clean :
      (indexer : Indexer) (r : JsonRpcRequest) (k : Connection)
      → NoBroadcast k
      → Clean (forward_subrequest_sync indexer r k)
  unfolding forward_subrequest_sync
  forward-Clean indexer r k h =
      if-cases Clean (is_broadcast_method r.method) (λ e. h)
        (λ e.
          after_forward-Clean r _ (indexer.answer r)
            (All-append (λ q. is_broadcast_method q.method ≡ false) k.forwarded (r ∷ []) h (e, tt)))

  module _ ⦃b : Bitcoin⦄ where
    dispatch-Clean :
        (indexer : Indexer) (label : String) (r : JsonRpcRequest) (k : Connection)
        → NoBroadcast k
        → Clean (dispatch indexer label r k)
    dispatch-Clean indexer label r k h =
        reply_or k (pool_answer r k) (header_or_forward indexer label r k) h (
          if-cases Clean (str_eq r.method "blockchain.headers.subscribe") (λ e. h)
            (λ e. reply_or k (serve_virtual_block_header r k.pool _) _ h (
              if-cases Clean (is_empty indexer.url) (λ e'. h) (λ e'. forward-Clean indexer r k h))))

    handled-Clean :
        (i : Identity) (indexer : Indexer) (label : String) (r : JsonRpcRequest) (k : Connection)
        → NoBroadcast k
        → Clean (handle_one_subrequest i indexer label r k)
    unfolding handle_one_subrequest
    handled-Clean i indexer label r k h =
        if-cases Clean (is_local_handshake_method r.method)
          (λ e. reply_or k (local_electrum_response i r) _ h h)
          (λ e. reply_or k (local_fast_response i r) _ h (
            if-cases Clean (is_broadcast_method r.method) (λ e'. h)
              (λ e'. dispatch-Clean indexer label r _ (
                if-cases NoBroadcast (is_watched r.method)
                  (λ w.
                    subst (All (λ q. is_broadcast_method q.method ≡ false))
                      (sym (interest-forwarded (scripthash_from_params r.params) k)) h)
                  (λ w. h)))))

    -- The requests of a connection, one after another, under what the indexer answers to each.
    unfoldable pub handle_all :
        Identity → String → List (Indexer × JsonRpcRequest) → Connection → Connection
    handle_all i label [] k = k
    handle_all i label ((indexer, r) ∷ rest) k =
        handle_all i label rest (handle_one_subrequest i indexer label r k).1

    -- Whatever a wallet requests on a connection and whatever the indexer answers, no broadcast request
    -- is among those that are forwarded for an answer.
    pub handle_all-NoBroadcast :
        (i : Identity) (label : String) (requests : List (Indexer × JsonRpcRequest))
        (k : Connection)
        → NoBroadcast k
        → NoBroadcast (handle_all i label requests k)
    unfolding handle_all
    handle_all-NoBroadcast i label [] k h = h
    handle_all-NoBroadcast i label ((indexer, r) ∷ rest) k h =
        handle_all-NoBroadcast i label rest _ (handled-Clean i indexer label r k h)
