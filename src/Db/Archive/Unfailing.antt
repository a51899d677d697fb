-- ===== src/Db/Archive/Unfailing.antt =====
-- The retention sweep of src/db/mod.rs where the primary key of the archive is never broken.
use broadcast_pool.Prelude.{
  ℕ, ◌≤◌, if◌then◌else◌, ◌+◌, false, String, ◌||◌, ◌≡◌, refl, ◌∙◌, ap, List, [], ◌∷◌, ◌++◌, str_eq,
  str_eq_iff, arith, ok, Bool-cases, inl, inr,
}
use broadcast_pool.Platform.{Platform}
use broadcast_pool.Models.{BroadcastTx}
use broadcast_pool.Crypto.{seal}
use broadcast_pool.Db.{ArchiveRow, Database}
use broadcast_pool.Db.Archive.{
  Fresh, was_tampered, delete_broadcast_tx, insert_archive, archive_one, archive_all, is_archived,
}

module _ ⦃p : Platform⦄ where
  -- The moves where no insert fails.
  unfoldable pub moved_one : Fresh → List ℕ → String → ℕ → BroadcastTx → Database → Database
  moved_one f key network n tx db = delete_broadcast_tx tx.id (record db {
    archive =
        db.archive
        ++ (record {
          id = f.uuid n;
          network = network;
          archived_at = p.rfc3339 (f.now n);
          blob = seal (f.nonce n) key (f.json tx) (p.as_bytes (f.uuid n));
        })
          ∷ [];
  })

  unfoldable pub moved_all :
      Fresh → List ℕ → String → ℕ → List BroadcastTx → Database → ℕ × Database
  unfolding moved_one
  moved_all f key network n [] db = (n, db)
  moved_all f key network n (tx ∷ txs) db =
      let skipped = moved_all f key network n txs db in
      let moved = moved_all f key network (n + 1) txs (moved_one f key network n tx db) in
      if was_tampered tx then skipped else moved

  is_archived-append :
      (id : String) (xs ys : List ArchiveRow)
      → is_archived id (xs ++ ys) ≡ (is_archived id xs || is_archived id ys)
  is_archived-append id [] ys = refl
  is_archived-append id (x ∷ xs) ys = ground (arith, is_archived-append id xs ys)

  -- None of the uuids from `n` on is taken.
  abbrev Free : Fresh → ℕ → List ArchiveRow → Type 0
  Free f n rows = (k : ℕ) → n ≤ k → is_archived (f.uuid k) rows ≡ false

  Free-next :
      (f : Fresh) (n : ℕ) (rows : List ArchiveRow) (a : ArchiveRow)
      → a.id ≡ f.uuid n
      → ((m n : ℕ) → f.uuid m ≡ f.uuid n → m ≡ n)
      → Free f n rows
      → Free f (n + 1) (rows ++ a ∷ [])
  Free-next f n rows a own distinct free k after =
      let apart : str_eq (f.uuid n) (f.uuid k) ≡ false =
        elim (Bool-cases (str_eq (f.uuid n) (f.uuid k))) [
          | inl e ↦
              let same = distinct n k ((str_eq_iff (f.uuid n) (f.uuid k)).0 e) in
              absurd (omega (arith, same, after))
          | inr e ↦ e
        ] in
      let other : str_eq a.id (f.uuid k) ≡ false = ap (λ i. str_eq i (f.uuid k)) own ∙ apart in
      let none_before = free k (omega (arith, after)) in
      ground (arith, is_archived-append (f.uuid k) rows (a ∷ []), none_before, other)

  -- With uuids that differ and that no archived row has, no insert fails.
  pub archive_all-moved :
      (f : Fresh) (key : List ℕ) (network : String)
      → ((m n : ℕ) → f.uuid m ≡ f.uuid n → m ≡ n)
      → (n : ℕ) (txs : List BroadcastTx) (db : Database) → Free f n db.archive
      → archive_all f key network n txs db
        ≡ (ok (moved_all f key network n txs db).0, (moved_all f key network n txs db).1)
  unfolding archive_all moved_all moved_one archive_one insert_archive delete_broadcast_tx
  archive_all-moved f key network distinct n [] db free = refl
  archive_all-moved f key network distinct n (tx ∷ txs) db free =
      elim (Bool-cases (was_tampered tx)) [
        | inl bad ↦ rw bad (archive_all-moved f key network distinct n txs db free)
        | inr good ↦
            rw (good, free n (omega arith))
              (archive_all-moved f key network distinct (n + 1) txs
                (moved_one f key network n tx db) (Free-next f n db.archive _ refl distinct free))
      ]
