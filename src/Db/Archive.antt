-- ===== src/Db/Archive.antt =====
-- Retention and the encrypted archive of src/db/mod.rs.
pub mod Chosen
pub mod Moves
pub mod Unfailing
use broadcast_pool.Prelude.{
  ℕ, ◌+◌, String, Bool, true, false, Option, none, some, List, [], ◌∷◌, ◌++◌, str_eq, if◌then◌else◌,
  Exec, Result, ok, err, ◌||◌, ◌>>=◌, select,
}
use mathlib.Core.Option
use broadcast_pool.Platform.{Platform}
use broadcast_pool.Models.{BroadcastTx}
use broadcast_pool.Crypto.{seal}
use broadcast_pool.Db.{Row, ArchiveRow, Database, by_id}
use broadcast_pool.Db.Read.{select_terminal_older_than}

abbrev pub without_id : String → List Row → List Row
without_id id = select (λ r. if by_id id r then false else true)

unfoldable pub delete_broadcast_tx : String → Database → Database
delete_broadcast_tx id db = record db { pool = without_id id db.pool }

abbrev pub is_archived : String → List ArchiveRow → Bool
is_archived id [] = false
is_archived id (a ∷ rows) = str_eq a.id id || is_archived id rows

-- A second row of the same `id` would break the primary key.
unfoldable pub insert_archive : String → String → String → List ℕ → Database → Option Database
insert_archive id network archived_at blob db =
    if is_archived id db.archive
    then none
    else some (record db {
      archive =
          db.archive
          ++ (record { id = id; network = network; archived_at = archived_at; blob = blob }) ∷ [];
    })

-- What each archived row takes from outside: a fresh uuid, the nonce of its sealing, the time, and
-- the JSON text of the row.
pub record Fresh : Type 0 where
  pub uuid : ℕ → String
  pub nonce : ℕ → List ℕ
  pub now : ℕ → ℕ
  pub json : BroadcastTx → List ℕ

abbrev pub was_tampered : BroadcastTx → Bool
was_tampered tx = elim tx.tampered [ some true ↦ true | _ ↦ false ]

module _ ⦃p : Platform⦄ where
  -- The insert and the delete run in one transaction, `none` where it fails.
  unfoldable pub archive_one :
      Fresh → List ℕ → String → ℕ → BroadcastTx → Database → Option Database
  unfolding delete_broadcast_tx insert_archive
  archive_one f key network n tx db = Option.map (delete_broadcast_tx tx.id) (
      insert_archive (f.uuid n) network (p.rfc3339 (f.now n))
        (seal (f.nonce n) key (f.json tx) (p.as_bytes (f.uuid n))) db)

  -- `n` counts the rows that were moved before; they stay moved where a later one fails.
  unfoldable pub archive_all :
      Fresh → List ℕ → String → ℕ → List BroadcastTx → Database → Result ℕ × Database
  archive_all f key network n [] db = (ok n, db)
  archive_all f key network n (tx ∷ txs) db =
      let skipped = archive_all f key network n txs db in
      let moved : Result ℕ × Database = elim (archive_one f key network n tx db) [
        | none ↦ (err "Failed to insert archive row", db)
        | some db' ↦ archive_all f key network (n + 1) txs db'
      ] in
      if was_tampered tx then skipped else moved

  unfoldable pub archive_terminal_older_than :
      Fresh → List ℕ → ℕ → String → String → Exec Database ℕ
  archive_terminal_older_than f key now network cutoff = do
    txs ← select_terminal_older_than now network cutoff
    archive_all f key network 0 txs

  unfoldable pub get_archive_blob : String → Database → Option (List ℕ)
  get_archive_blob id db = blob_of (select (λ a. str_eq a.id id) db.archive)
    where
      blob_of : List ArchiveRow → Option (List ℕ)
      blob_of [] = none
      blob_of (a ∷ _) = some a.blob
