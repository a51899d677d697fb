-- ===== src/Db/Open.antt =====
-- src/db/mod.rs: what opening a database does to its rows. The statements that add tables, columns and
-- indices do not change rows and are not modelled; a row of the model has all columns.
pub mod Reclassified
use broadcast_pool.Prelude.{
  ℕ, ◌+◌, ◌==◌, String, Bool, true, false, ◌&&◌, ◌||◌, not, ltb, Option, none, some, List, [], ◌∷◌,
  select, if◌then◌else◌, str_eq, is_some, is_none, strip_prefix, lower_text, ok, err, Exec, ◌>>=◌,
  ◌>>◌, pure, gets, modify, attempt,
}
use mathlib.Core.Option
use broadcast_pool.Platform.{Platform}
use broadcast_pool.Crypto.{is_encoded, encode_field}
use broadcast_pool.Db.{Row, Database, update_where, reseal_row_mac, decode_or_keep}
use broadcast_pool.Db.Write.{update_by_id}
use broadcast_pool.Db.Read.{column_is}

-- Migration 007: one `UPDATE`, without a new MAC.
unfoldable pub migration_007 : Exec Database (Unit {0})
unfolding update_where
migration_007 = modify (λ db. record db {
  pool =
      update_where (λ r. column_is r.broadcast_mode "immediate" && str_eq r.status "pending")
        (λ r. record r { broadcast_mode = some "imported" }) db.pool;
})

-- `tx_hex NOT LIKE 'enc:%' OR row_mac IS NULL`; `LIKE` does not tell ASCII capitals apart.
unfoldable pub is_legacy : Row → Bool
unfolding strip_prefix lower_text
is_legacy r = is_none (strip_prefix "enc:" (lower_text r.tx_hex)) || is_none r.row_mac

module _ ⦃p : Platform⦄ where
  -- `value_of` is the value of the outputs of a transaction in hex, if it decodes.
  unfoldable pub backfill_rows : (String → Option ℕ) → List ℕ → List Row → Exec Database ℕ
  unfolding decode_or_keep
  backfill_rows value_of key [] = pure 0
  backfill_rows value_of key (r ∷ rs) =
      let rest = backfill_rows value_of key rs in
      elim (value_of (decode_or_keep key r.id r.tx_hex)) [
        | none ↦ rest
        | some btc ↦
            if ltb 0 btc
            then (do
              update_by_id r.id (λ x. record x { total_value_btc = btc })
              count ← rest
              pure (count + 1))
            else rest
      ]

  unfoldable pub backfill_output_values : (String → Option ℕ) → Exec Database ℕ
  unfolding backfill_rows
  backfill_output_values value_of = do
    key ← gets (λ db. db.key)
    rows ← gets (λ db. select (λ r. r.total_value_btc == 0) db.pool)
    backfill_rows value_of key rows

  -- A field that is encoded already stays as it is. `nonce` gives each encryption its own.
  abbrev encrypted : List ℕ → List ℕ → String → String → String
  encrypted nonce key id s = if is_encoded s then s else encode_field nonce key s (p.as_bytes id)

  abbrev encrypt_row : (String → ℕ → List ℕ) → List ℕ → Row → Row → Row
  encrypt_row nonce key old r = record r {
    tx_hex = encrypted (nonce old.id 0) key old.id old.tx_hex;
    destination_address =
        Option.map (encrypted (nonce old.id 1) key old.id) old.destination_address;
    source_label = Option.map (encrypted (nonce old.id 2) key old.id) old.source_label;
  }

  unfoldable pub encrypt_rows : (String → ℕ → List ℕ) → List ℕ → List Row → Exec Database ℕ
  unfolding reseal_row_mac
  encrypt_rows nonce key [] = pure 0
  encrypt_rows nonce key (r ∷ rs) =
      let rest = encrypt_rows nonce key rs in
      do
        update_by_id r.id (encrypt_row nonce key r)
        reseal_row_mac r.id
        count ← rest
        pure (count + 1)

  unfoldable pub encrypt_legacy_rows : (String → ℕ → List ℕ) → Exec Database ℕ
  unfolding is_legacy encrypt_rows
  encrypt_legacy_rows nonce = do
    key ← gets (λ db. db.key)
    rows ← gets (λ db. select is_legacy db.pool)
    encrypt_rows nonce key rows

  -- The rows after `open`: the errors of the last two steps are logged only.
  unfoldable pub open_rows : (String → Option ℕ) → (String → ℕ → List ℕ) → Exec Database (Unit {0})
  unfolding migration_007 backfill_output_values encrypt_legacy_rows
  open_rows value_of nonce = do
    migration_007
    attempt (backfill_output_values value_of)
    attempt (encrypt_legacy_rows nonce)
    pure tt
