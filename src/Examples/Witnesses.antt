-- ===== src/Examples/Witnesses.antt =====
-- The properties at concrete inputs.
use broadcast_pool.Prelude.{
  strip_prefix, String, true, false, ◌≡◌, refl, none, some, List, [], ◌∷◌, ok, All, arith, ◌⊎◌, inl,
  inr,
}
use broadcast_pool.Models.{BroadcastTx, failed}
use broadcast_pool.Crypto.{is_encoded, encode_field, decode_field}
use broadcast_pool.Crypto.RoundTrip.{decode_field-encode_field}
use broadcast_pool.Db.{map_broadcast_row, decode_or_keep}
use broadcast_pool.Db.Seal.{AllSealed}
use broadcast_pool.Db.Seal.Writes.{Statement, perform_all, perform_all-AllSealed}
use broadcast_pool.Pool.Broadcast.{broadcast_one, broadcast_all, broadcast_due_transactions}
use broadcast_pool.Pool.Sends.{until_tampered, broadcast_all-sent}
use broadcast_pool.Pool.Sends.Eligible.{Eligible, broadcast_due_transactions-sent}
use broadcast_pool.Pool.Sends.Gate.{Reached, broadcast_one-Reached}
use broadcast_pool.Examples.Toy.{toy, toy-Decodes}
use broadcast_pool.Examples.World.{key, sealed, rows, db, steady, manager, nonce, seen, new_tx}

-- The transactions of the two sealed rows.
abbrev Known : String → Type 0
Known hex = (hex ≡ "aa") ⊎ (hex ≡ "bb")

kept : All (λ r. Eligible manager r → Known (decode_or_keep key r.id r.tx_hex)) rows
unfolding decode_or_keep decode_field strip_prefix
kept = ((λ _. inl refl), ((λ _. inr refl), ((λ e. absurd (ground (arith, e.sealed))), tt)))

due_example : All Known (broadcast_due_transactions manager).1.sent
due_example = broadcast_due_transactions-sent Known manager kept tt

two : List BroadcastTx
two = seen "aa" false ∷ seen "cc" true ∷ []

first : All (λ tx. Known tx.tx_hex) (until_tampered two)
unfolding two
first = (inl refl, tt)

locked : (map_broadcast_row 5 key (sealed "b" "bb" 900)).nlocktime ≡ some 900
unfolding map_broadcast_row
locked = refl

loop_example : All Known (broadcast_all two 5 manager).1.sent
loop_example = broadcast_all-sent Known two 5 manager first tt

statements : List Statement
statements =
    Statement.insert 3 "n" (λ i. nonce) none new_tx
    ∷ Statement.due 4 "n"
    ∷ Statement.set_status 5 "missing" failed none
    ∷ []

seal_example : AllSealed (perform_all statements (record db { pool = [] }))
seal_example =
    perform_all-AllSealed statements (record db { pool = [] })
      (record { distinct = tt; sealed = tt })

gate_example :
    Reached manager 900
    ⊎ ((broadcast_one (map_broadcast_row 5 key (sealed "b" "bb" 900)) 5 manager).1.sent ≡ [])
gate_example =
    broadcast_one-Reached manager (map_broadcast_row 5 key (sealed "b" "bb" 900)) 5 900 locked
      (ground arith)

field_example :
    (is_encoded (encode_field nonce key "tx" (1 ∷ [])) ≡ true)
    × (decode_field key (encode_field nonce key "tx" (1 ∷ [])) (1 ∷ []) ≡ ok "tx")
field_example = decode_field-encode_field toy-Decodes nonce key refl "tx" (1 ∷ [])
