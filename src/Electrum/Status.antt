-- ===== src/Electrum/Status.antt =====
-- src/pool/virtual_mempool.rs: the status of a script hash, a hash of its history.
pub mod Order
use broadcast_pool.Prelude.{
  ℕ, String, Bool, true, false, Option, none, some, List, [], ◌∷◌, if◌then◌else◌, leb, ltb, codes,
  concat, unwrap_or,
}
use broadcast_pool.Platform.{Platform}
use broadcast_pool.Json.{ℤ, pos, negsuc, Value, get, as_str, as_i64, and_then, show_int}
use broadcast_pool.Transactions.{Codec}
use broadcast_pool.Electrum.Inject.{inject_in_history}

-- What the order and the text of an entry depend on.
abbrev pub Key : Type 0
Key = ℤ × String

unfoldable pub key : Value → Key
unfolding get as_str as_i64 and_then
key v = (
  unwrap_or (and_then (get "height" v) as_i64) (pos 0),
  unwrap_or (and_then (get "tx_hash" v) as_str) "",
)

unfoldable pub int_le : ℤ → ℤ → Bool
int_le (pos a) (pos b) = leb a b
int_le (pos a) (negsuc b) = false
int_le (negsuc a) (pos b) = true
int_le (negsuc a) (negsuc b) = leb b a

-- The order of texts, which is that of their code points.
unfoldable pub codes_le : List ℕ → List ℕ → Bool
codes_le [] t = true
codes_le (c ∷ s) [] = false
codes_le (c ∷ s) (d ∷ t) =
    let rest = codes_le s t in if ltb c d then true else if ltb d c then false else rest

-- Pairs are compared by the height, then by the text.
unfoldable pub key_le : Key → Key → Bool
unfolding int_le codes_le
key_le (h, s) (k, t) =
    if int_le h k then if int_le k h then codes_le (codes s) (codes t) else true else false

-- `sort_by`, which leaves equal entries in their order.
unfoldable pub insert_entry : Value → List Value → List Value
unfolding key key_le
insert_entry v [] = v ∷ []
insert_entry v (w ∷ ws) =
    let rest = insert_entry v ws in if key_le (key v) (key w) then v ∷ w ∷ ws else w ∷ rest

unfoldable pub sort_entries : List Value → List Value
unfolding insert_entry
sort_entries [] = []
sort_entries (v ∷ vs) = insert_entry v (sort_entries vs)

-- `tx_hash:height:` of each entry
unfoldable pub key_text : Key → String
unfolding concat show_int
key_text (height, tx_hash) = concat tx_hash (concat ":" (concat (show_int height) ":"))

unfoldable pub status_text : List Value → String
unfolding concat key key_text
status_text [] = ""
status_text (v ∷ vs) = concat (key_text (key v)) (status_text vs)

module _ ⦃p : Platform⦄ ⦃c : Codec⦄ where
  unfoldable pub compute_status_hash : List Value → Option String
  unfolding sort_entries status_text
  compute_status_hash [] = none
  compute_status_hash (v ∷ vs) =
      some (p.hex_encode (c.sha256 (p.as_bytes (status_text (sort_entries (v ∷ vs))))))

  unfoldable pub compute_modified_status_hash : List Value → List String → Option String
  unfolding inject_in_history compute_status_hash
  compute_modified_status_hash real_history pending_txids =
      compute_status_hash (inject_in_history real_history pending_txids)
