-- ===== src/Transactions.antt =====
-- src/pool/virtual_mempool.rs: what the program reads of a raw transaction. Decoding, the id and the
-- script hashes are code of the bitcoin, hex and electrum-client crates.
use broadcast_pool.Prelude.{
  ℕ, zero, suc, ◌+◌, ◌==◌, String, Bool, false, ◌&&◌, ◌||◌, Option, none, some, List, [], ◌∷◌, ◌++◌,
  map, take, length, if◌then◌else◌, or_else, unwrap_or, strip_prefix, trim, Result, ok, err, str_eq,
}
use mathlib.Core.List.{reverse}
use broadcast_pool.Platform.{Platform}
use broadcast_pool.Pool.{PendingTxOutput}
use broadcast_pool.Pool.Safe.{contains_text}

-- A transaction of the bitcoin crate, as far as the server reads it. `prev_txid` is in the order of
-- the wire, a script is its bytes and `lock_time` the number of 32 bits.
pub record TxInput : Type 0 where
  pub prev_txid : String
  pub vout : ℕ
  pub script_sig_empty : Bool
  pub witness_empty : Bool

pub record TxOutput : Type 0 where
  pub value : ℕ
  pub script_pubkey : List ℕ

pub record Transaction : Type 0 where
  pub inputs : List TxInput
  pub outputs : List TxOutput
  pub lock_time : ℕ

-- `consensus_decode` takes the hex without blanks round it; `txid` is `electrum_txid` of
-- `compute_txid`, and `scripthash` the Electrum script hash in hex.
pub record Codec : Type 0 where
  pub consensus_decode : String → Result Transaction
  pub txid : Transaction → String
  pub scripthash : List ℕ → String
  pub sha256 : List ℕ → List ℕ

-- A `HashSet` from the entries of a list: each once, in some order.
unfoldable pub as_set : List String → List String → List String
as_set known [] = known
as_set known (sh ∷ shs) = as_set (if contains_text known sh then known else known ++ sh ∷ []) shs

module _ ⦃p : Platform⦄ where
  abbrev swap_bytes : List ℕ → Option String
  swap_bytes bytes = if length bytes == 32 then some (p.hex_encode (reverse bytes)) else none

  unfoldable pub alternate_txid_format : String → Option String
  unfolding trim
  alternate_txid_format txid = elim (p.hex_decode (trim txid)) [
    | none ↦ none
    | some bytes ↦ swap_bytes bytes
  ]

unfoldable pub strip_indexer_host : String → String
unfolding strip_prefix
strip_indexer_host url =
    unwrap_or (or_else (strip_prefix "tcp://" url) (strip_prefix "ssl://" url)) url

abbrev any_unsigned : List TxInput → Bool
any_unsigned [] = false
any_unsigned (i ∷ is) = (i.script_sig_empty && i.witness_empty) || any_unsigned is

module _ ⦃c : Codec⦄ where
  unfoldable pub decode_tx : String → Result Transaction
  unfolding trim
  decode_tx tx_hex = c.consensus_decode (trim tx_hex)

  -- `map` of a `Result`
  abbrev of_tx : {A : Type 0} → (Transaction → A) → Result Transaction → Result A
  of_tx f (ok tx) = ok (f tx)
  of_tx f (err e) = err e

  unfoldable pub compute_txid : String → Result String
  unfolding decode_tx
  compute_txid tx_hex = of_tx c.txid (decode_tx tx_hex)

  unfoldable pub is_unsigned : String → Result Bool
  unfolding decode_tx
  is_unsigned tx_hex = of_tx (λ tx. any_unsigned tx.inputs) (decode_tx tx_hex)

  unfoldable pub numbered : ℕ → List TxOutput → List PendingTxOutput
  numbered i [] = []
  numbered i (o ∷ os) =
      record { output_index = i; value = o.value; scripthash = c.scripthash o.script_pubkey }
      ∷ numbered (i + 1) os

  unfoldable pub extract_outputs : String → Result (List PendingTxOutput)
  unfolding decode_tx numbered
  extract_outputs tx_hex = of_tx (λ tx. numbered 0 tx.outputs) (decode_tx tx_hex)

  unfoldable pub output_scripthashes : Transaction → List String
  output_scripthashes tx = map (λ o. c.scripthash o.script_pubkey) tx.outputs

  unfoldable pub extract_output_scripthashes : String → Result (List String)
  unfolding decode_tx output_scripthashes
  extract_output_scripthashes tx_hex = of_tx output_scripthashes (decode_tx tx_hex)

  -- `scripthash` of output `vout`, where there is one
  abbrev script_of : ℕ → List TxOutput → Option String
  script_of vout [] = none
  script_of zero (o ∷ os) = some (c.scripthash o.script_pubkey)
  script_of (suc vout) (o ∷ os) = script_of vout os

  -- `fetch` asks the indexer for the transaction that an input spends. The inputs that could not be
  -- fetched add nothing.
  abbrev spent : (String → Option Transaction) → List TxInput → List String
  spent fetch [] = []
  spent fetch (i ∷ is) =
      let rest = spent fetch is in
      elim (fetch i.prev_txid) [
        | none ↦ rest
        | some prev ↦ elim (script_of i.vout prev.outputs) [ none ↦ rest | some sh ↦ sh ∷ rest ]
      ]

  unfoldable pub extract_affected_scripthashes_opts :
      (String → Option Transaction) → String → Bool → Result (List String)
  unfolding decode_tx as_set output_scripthashes
  extract_affected_scripthashes_opts fetch tx_hex fast =
      of_tx
        (λ tx.
          let outputs = as_set [] (output_scripthashes tx) in
          if fast then outputs else as_set outputs (spent fetch tx.inputs))
        (decode_tx tx_hex)

  abbrev of_hex : Result Transaction → Option Transaction
  of_hex (ok tx) = some tx
  of_hex (err e) = none

  module _ ⦃p : Platform⦄ where
    unfoldable pub lookup_prev_tx_hex : (String → Option String) → String → Option String
    unfolding alternate_txid_format
    lookup_prev_tx_hex lookup txid =
        or_else (lookup txid)
          (elim (alternate_txid_format txid) [ none ↦ none | some alt ↦ lookup alt ])

    -- The pool's own copy, if it decodes; else the indexer's, unless its address is empty.
    unfoldable pub resolve_prev_tx :
        (String → Option Transaction)
        → String
        → (String → Option String)
        → String
        → Option Transaction
    unfolding lookup_prev_tx_hex decode_tx
    resolve_prev_tx fetch indexer_addr lookup prev_txid =
        or_else
          (elim (lookup_prev_tx_hex lookup prev_txid) [
            | none ↦ none
            | some hex ↦ of_hex (decode_tx hex)
          ])
          (if str_eq indexer_addr "" then none else fetch prev_txid)

    abbrev add_input : List String → List String → Option String → List String
    add_input outputs found none = found
    add_input outputs found (some sh) =
        if contains_text outputs sh || contains_text found sh then found else found ++ sh ∷ []

    abbrev enrich_inputs :
        (String → Option Transaction) → List String → List String → List TxInput → List String
    enrich_inputs resolve outputs found [] = found
    enrich_inputs resolve outputs found (i ∷ is) =
        enrich_inputs resolve outputs
          (add_input outputs found (elim (resolve i.prev_txid) [
            | none ↦ none
            | some prev ↦ script_of i.vout prev.outputs
          ]))
          is

    -- `handled` is the number of inputs that are read before the time budget is used up.
    unfoldable pub enrich_input_scripthashes :
        ℕ
        → (String → Option Transaction)
        → String
        → (String → Option String)
        → String
        → Result (List String)
    unfolding decode_tx resolve_prev_tx output_scripthashes
    enrich_input_scripthashes handled fetch indexer_addr lookup tx_hex =
        of_tx
          (λ tx.
            enrich_inputs (resolve_prev_tx fetch indexer_addr lookup) (output_scripthashes tx) []
              (take handled tx.inputs))
          (decode_tx tx_hex)
