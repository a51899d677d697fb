-- ===== src/Db/Read.antt =====
-- The queries of src/db/mod.rs: each is the list of decoded rows that its `WHERE` clause selects.
use broadcast_pool.Prelude.{
  not, ℕ, String, Bool, true, false, ◌&&◌, ◌||◌, ◌*◌, ◌-◌, ltb, leb, Option, none, some, List, [],
  ◌∷◌, map, str_eq, if◌then◌else◌, Result, ok, err, Exec, gets, select, take, text_lt, is_some,
  is_some_and, is_none,
}
use broadcast_pool.Platform.{Platform}
use broadcast_pool.Models.{BroadcastTx, second}
use broadcast_pool.Crypto.{decode_field}
use broadcast_pool.Db.{Row, Database, map_broadcast_row}

-- `ORDER BY created_at DESC`; rows of one instant stay in the order of the table.
insert_desc : Row → List Row → List Row
insert_desc r [] = r ∷ []
insert_desc r (x ∷ xs) =
    if text_lt x.created_at r.created_at then r ∷ x ∷ xs else x ∷ insert_desc r xs

unfoldable pub by_created_desc : List Row → List Row
unfolding insert_desc
by_created_desc [] = []
by_created_desc (r ∷ rs) = insert_desc r (by_created_desc rs)

-- `column = 'text'` on a column that may be NULL.
abbrev pub column_is : Option String → String → Bool
column_is none s = false
column_is (some t) s = str_eq t s

module _ ⦃p : Platform⦄ where
  -- `LIMIT` takes a signed number, of which the program gives only positive ones.
  unfoldable pub list_broadcast_txs :
      ℕ → Option String → String → ℕ → Exec Database (List BroadcastTx)
  list_broadcast_txs now status network limit = gets (λ db. map (map_broadcast_row now db.key) (
      take limit (
        by_created_desc (
          select
            (λ r.
              str_eq r.network network
              && (elim status [ none ↦ true | some s ↦ str_eq r.status s ]))
            db.pool))))

  abbrev rows_where : ℕ → (Row → Bool) → Exec Database (List BroadcastTx)
  rows_where now test = gets (λ db. map (map_broadcast_row now db.key) (select test db.pool))

  unfoldable pub get_due_transactions : ℕ → String → Exec Database (List BroadcastTx)
  get_due_transactions now network =
      rows_where now (λ r. str_eq r.status "scheduled" && str_eq r.network network)

  unfoldable pub get_price_triggered_pending : ℕ → String → Exec Database (List BroadcastTx)
  get_price_triggered_pending now network = rows_where now (λ r.
      (str_eq r.status "pending" || str_eq r.status "scheduled")
      && column_is r.schedule_trigger "price"
      && is_some r.target_price
      && str_eq r.network network)

  unfoldable pub get_pending_by_block_height : ℕ → String → Exec Database (List BroadcastTx)
  get_pending_by_block_height now network = rows_where now (λ r.
      str_eq r.status "pending"
      && column_is r.broadcast_mode "by_block"
      && ltb 0 r.nlocktime
      && ltb r.nlocktime 500_000_000
      && str_eq r.network network)

  -- The rows that the query selects are filtered once more, by the decoded time.
  unfoldable pub get_pending_by_scheduled_time : ℕ → String → Exec Database (List BroadcastTx)
  get_pending_by_scheduled_time now network = gets (λ db.
      select (λ (tx : BroadcastTx). is_some_and tx.scheduled_time (λ t. leb t now))
        (map (map_broadcast_row now db.key) (
          select
            (λ r.
              str_eq r.status "pending"
              && (column_is r.broadcast_mode "scheduled"
                  || column_is r.broadcast_mode "manual"
                  || column_is r.broadcast_mode "imported")
              && is_some r.scheduled_time
              && str_eq r.network network)
            db.pool)))

  -- Times are compared as text. No stored time is before 1970, so none is before a cutoff that is.
  unfoldable pub get_pending_rebroadcast : ℕ → ℕ → String → Exec Database (List BroadcastTx)
  get_pending_rebroadcast now interval_minutes network db =
      let back = interval_minutes * 60 * second in
      let cutoff = p.rfc3339 (now - back) in
      rows_where now
        (λ r.
          str_eq r.status "broadcast"
          && is_none r.confirmed_at
          && (elim r.broadcast_at [ none ↦ true | some t ↦ not (ltb now back) && text_lt t cutoff ])
          && str_eq r.network network)
        db

  decoded : List ℕ → List Row → Result (Option String)
  decoded key [] = ok none
  decoded key (r ∷ _) = elim (decode_field key r.tx_hex (p.as_bytes r.id)) [
    | ok t ↦ ok (some t)
    | err _ ↦ err "Failed to decrypt tx_hex"
  ]

  unfoldable pub get_tx_hex_by_txid : String → Exec Database (Option String)
  unfolding decoded
  get_tx_hex_by_txid txid db = (
    decoded db.key (
        select
          (λ r. column_is r.txid txid && (str_eq r.status "pending" || str_eq r.status "scheduled"))
          db.pool),
    db,
  )

  -- Rows in a terminal status that nothing has updated since the cutoff, a text.
  unfoldable pub select_terminal_older_than : ℕ → String → String → Exec Database (List BroadcastTx)
  select_terminal_older_than now network cutoff = rows_where now (λ r.
      (str_eq r.status "confirmed" || str_eq r.status "failed" || str_eq r.status "broadcast")
      && text_lt r.updated_at cutoff
      && str_eq r.network network)
