-- ===== src/Db/Archive/Moves.antt =====
-- What `archive_terminal_older_than` of src/db/mod.rs moves.
use broadcast_pool.Prelude.{
  ℕ, suc, ◌+◌, false, String, Bool, not, ◌&&◌, ◌||◌, ◌≡◌, refl, sym, append-nil, append-append_one,
  ◌∙◌, ap, List, [], ◌∷◌, ◌++◌, map, length, select, str_eq, arith, ok, Result, Bool-cases, inl,
  inr, text_lt,
}
use broadcast_pool.Platform.{Platform, Decodes}
use broadcast_pool.Models.{BroadcastTx}
use broadcast_pool.Crypto.{open_blob}
use broadcast_pool.Crypto.RoundTrip.{open_blob-seal}
use broadcast_pool.Db.{Row, ArchiveRow, Database, map_broadcast_row}
use broadcast_pool.Db.Read.{select_terminal_older_than}
use broadcast_pool.Db.Archive.{
  Fresh, was_tampered, delete_broadcast_tx, archive_terminal_older_than, is_archived,
}
use broadcast_pool.Db.Archive.Unfailing.{moved_one, moved_all, archive_all-moved}
use broadcast_pool.Db.Archive.Chosen.{ids_of, without_ids, without_ids-chosen}
use broadcast_pool.Db.Seal.{Distinct}

module _ ⦃p : Platform⦄ where
  -- The decoded rows that are not tampered.
  abbrev intact : List BroadcastTx → List BroadcastTx
  intact = select (λ tx. not (was_tampered tx))

  pool-moved_all :
      (f : Fresh) (key : List ℕ) (network : String) (n : ℕ) (txs : List BroadcastTx) (db : Database)
      → (moved_all f key network n txs db).1.pool
        ≡ without_ids (map (λ tx. tx.id) (intact txs)) db.pool
  unfolding moved_all moved_one without_ids delete_broadcast_tx
  pool-moved_all f key network n [] db = refl
  pool-moved_all f key network n (tx ∷ txs) db = ground (
    arith,
    pool-moved_all f key network n txs db,
    pool-moved_all f key network (n + 1) txs (moved_one f key network n tx db),
  )

  count-moved_all :
      (f : Fresh) (key : List ℕ) (network : String) (n : ℕ) (txs : List BroadcastTx) (db : Database)
      → (moved_all f key network n txs db).0 ≡ n + length (intact txs)
  unfolding moved_all
  count-moved_all f key network n [] db = ground arith
  count-moved_all f key network n (tx ∷ txs) db = ground (
    arith,
    count-moved_all f key network n txs db,
    count-moved_all f key network (n + 1) txs (moved_one f key network n tx db),
  )

  -- What the archived blobs hold, read with the key of the archive.
  abbrev pub contents : List ℕ → List ArchiveRow → List (Result (List ℕ))
  contents key = map (λ a. open_blob key a.blob (p.as_bytes a.id))

  contents_snoc :
      (key : List ℕ) (xs ys : List ArchiveRow)
      → contents key (xs ++ ys) ≡ contents key xs ++ contents key ys
  contents_snoc key [] ys = refl
  contents_snoc key (x ∷ xs) ys =
      ap (◌∷◌ (open_blob key x.blob (p.as_bytes x.id))) (contents_snoc key xs ys)

module _ ⦃p : Platform⦄ (laws : Decodes p) (f : Fresh) (sized : (n : ℕ) → length (f.nonce n) ≡ 12)
    (key : List ℕ) (network : String) where
  contents-moved_one :
      (n : ℕ) (tx : BroadcastTx) (db : Database)
      → contents key (moved_one f key network n tx db).archive
        ≡ contents key db.archive ++ ok (f.json tx) ∷ []
  unfolding moved_one delete_broadcast_tx
  contents-moved_one n tx db =
      contents_snoc key db.archive _
      ∙ ap (λ r. contents key db.archive ++ r ∷ [])
          (open_blob-seal laws (f.nonce n) key (sized n) (f.json tx) (p.as_bytes (f.uuid n)))

  contents-moved_all :
      (n : ℕ) (txs : List BroadcastTx) (db : Database)
      → contents key (moved_all f key network n txs db).1.archive
        ≡ contents key db.archive ++ map (λ tx. ok (f.json tx)) (intact txs)
  unfolding moved_all
  contents-moved_all n [] db = sym (append-nil (contents key db.archive))
  contents-moved_all n (tx ∷ txs) db = elim (Bool-cases (was_tampered tx)) [
    | inl bad ↦ rw bad (contents-moved_all n txs db)
    | inr good ↦ rw good (
        contents-moved_all (n + 1) txs (moved_one f key network n tx db)
        ∙ ap (λ r. r ++ map (λ tx. ok (f.json tx)) (intact txs)) (contents-moved_one n tx db)
        ∙ append-append_one (contents key db.archive) (ok (f.json tx))
            (map (λ tx. ok (f.json tx)) (intact txs)))
  ]

module _ ⦃p : Platform⦄ (now : ℕ) (network cutoff : String) where
  -- A row of the network in a terminal status that nothing has updated since the cutoff.
  abbrev expired : Row → Bool
  expired r =
      (str_eq r.status "confirmed" || str_eq r.status "failed" || str_eq r.status "broadcast")
      && text_lt r.updated_at cutoff
      && str_eq r.network network

  -- Such a row with an intact seal.
  abbrev pub retires : List ℕ → Row → Bool
  retires key r = expired r && not (was_tampered (map_broadcast_row now key r))

  intact-expired :
      (key : List ℕ) (rs : List Row)
      → intact (map (map_broadcast_row now key) (select expired rs))
        ≡ map (map_broadcast_row now key) (select (retires key) rs)
  intact-expired key [] = refl
  intact-expired key (r ∷ rs) = elim (Bool-cases (expired r)) [
    | inl e ↦ elim (Bool-cases (was_tampered (map_broadcast_row now key r))) [
      | inl bad ↦ rw (e, bad) (intact-expired key rs)
      | inr good ↦ rw (e, good) (ap (◌∷◌ (map_broadcast_row now key r)) (intact-expired key rs))
    ]
    | inr e ↦ rw e (intact-expired key rs)
  ]

  ids-map :
      (key : List ℕ) (rs : List Row)
      → map (λ (tx : BroadcastTx). tx.id) (map (map_broadcast_row now key) rs) ≡ ids_of rs
  unfolding map_broadcast_row
  ids-map key [] = refl
  ids-map key (r ∷ rs) = ap (◌∷◌ r.id) (ids-map key rs)

  length-map :
      (key : List ℕ) (rs : List Row) → length (map (map_broadcast_row now key) rs) ≡ length rs
  length-map key [] = refl
  length-map key (r ∷ rs) = ap suc (length-map key rs)

  json-map :
      (json : BroadcastTx → List ℕ) (key : List ℕ) (rs : List Row)
      → map (λ tx. ok (json tx)) (map (map_broadcast_row now key) rs)
        ≡ map (λ r. ok (json (map_broadcast_row now key r))) rs
  json-map json key [] = refl
  json-map json key (r ∷ rs) =
      ap (◌∷◌ (ok (json (map_broadcast_row now key r)))) (json-map json key rs)

  -- With an id for each row, nonces of 12 bytes, and fresh ids for the archive that differ and that
  -- no archived row has, the retention sweep takes out of the pool exactly the rows of the network
  -- in a terminal status, not updated since the cutoff and with an intact seal, returns their
  -- number, and extends the archive, read with its key, by the JSON of each in the order of the
  -- pool.
  pub archive_terminal_older_than-moves :
      (laws : Decodes p) (f : Fresh) (sized : (n : ℕ) → length (f.nonce n) ≡ 12) (key : List ℕ)
      (db : Database)
      → Distinct db.pool
      → ((m n : ℕ) → f.uuid m ≡ f.uuid n → m ≡ n)
      → ((n : ℕ) → is_archived (f.uuid n) db.archive ≡ false)
      → ((archive_terminal_older_than f key now network cutoff db).0
          ≡ ok (length (select (retires db.key) db.pool)))
        × (((archive_terminal_older_than f key now network cutoff db).1.pool
              ≡ select (λ r. not (retires db.key r)) db.pool)
            × (contents key (archive_terminal_older_than f key now network cutoff db).1.archive
                ≡ contents key db.archive
                  ++ map
                      (λ r. ok (f.json (map_broadcast_row now db.key r)))
                      (select (retires db.key) db.pool)))
  unfolding archive_terminal_older_than select_terminal_older_than
  archive_terminal_older_than-moves laws f sized key db d distinct unused =
      let txs = map (map_broadcast_row now db.key) (select expired db.pool) in
      let rs = select (retires db.key) db.pool in
      let done = archive_all-moved f key network distinct 0 txs db (λ k _. unused k) in
      (
        ap (λ r. r.0) done
            ∙ ground (
              arith,
              count-moved_all f key network 0 txs db,
              ap length (intact-expired db.key db.pool),
              length-map db.key rs,
            ),
        (
          ap (λ r. r.1.pool) done
              ∙ pool-moved_all f key network 0 txs db
              ∙ ap (λ ys. without_ids (map (λ (tx : BroadcastTx). tx.id) ys) db.pool)
                  (intact-expired db.key db.pool)
              ∙ ap (λ ids. without_ids ids db.pool) (ids-map db.key rs)
              ∙ without_ids-chosen (retires db.key) db.pool d,
          ap (λ r. contents key r.1.archive) done
              ∙ contents-moved_all laws f sized key network 0 txs db
              ∙ ap (λ ys. contents key db.archive ++ ys)
                  (ap (map (λ tx. ok (f.json tx))) (intact-expired db.key db.pool)
                    ∙ json-map f.json db.key rs),
        ),
      )
