-- ===== src/Db/Seal/Writes.antt =====
-- The functions of src/db/mod.rs that write rows of the pool, and the seal of the rows.
use broadcast_pool.Models.{BroadcastTx}
use broadcast_pool.Prelude.{
  Result, if-cases, leb, ◌^◌, unwrap_or, ℕ, String, Bool, true, false, ◌&&◌, ◌≡◌, refl, Option,
  none, some, List, [], ◌∷◌, ◌++◌, str_eq, str_eq_iff, All, All-append, All-select, arith,
  Bool-cases, inl, inr, select, ◌==◌, length,
}
use broadcast_pool.Platform.{Platform}
use broadcast_pool.Models.{TxStatus, NewBroadcastTx}
use broadcast_pool.Db.{Row, Database, by_id, find, update_where, expected_mac, reseal_row_mac}
use broadcast_pool.Db.Write.{
  new_row, insert_broadcast_tx, get_broadcast_tx_by_id, update_tx_status, reset_failed_to_scheduled,
  mark_broadcast, mark_confirmed, record_broadcast_miss, update_reschedule, update_price_schedule,
  mark_due, mark_due_from_price_trigger, mark_due_with_schedule, remove_broadcast_tx,
}
use broadcast_pool.Db.Seal.{
  Fresh, Distinct, IsSealed, AllSealed, Distinct-update_where, SealedBut-update_where,
  reseal_row_mac-AllSealed,
}

-- The functions of src/db/mod.rs that write rows of the pool, with the time and the values that each call
-- takes. The raw updates of src/pool/manager.rs are not among them.
pub data Statement : Type 0 where
  insert : ℕ → String → (ℕ → List ℕ) → Option ℕ → NewBroadcastTx → Statement
  set_status : ℕ → String → TxStatus → Option String → Statement
  reset_failed : ℕ → String → Statement
  broadcast : ℕ → String → String → ℕ → Statement
  confirm : ℕ → String → ℕ → Statement
  record_miss : ℕ → String → String → Option String → Statement
  reschedule : ℕ → String → String → Option String → ℕ → Statement
  price_schedule : ℕ → String → ℕ → String → String → ℕ → Statement
  due : ℕ → String → Statement
  price_due : ℕ → String → Statement
  due_at : ℕ → String → ℕ → Statement
  remove : String → Statement

module _ ⦃p : Platform⦄ where
  -- The database after a statement, whether it succeeds or fails.
  unfoldable pub perform : Statement → Database → Database
  perform (insert now id nonce derived tx) db = (insert_broadcast_tx now id nonce derived tx db).1
  perform (set_status now id status error) db = (update_tx_status now id status error db).1
  perform (reset_failed now id) db = (reset_failed_to_scheduled now id db).1
  perform (broadcast now id txid fee) db = (mark_broadcast now id txid fee db).1
  perform (confirm now id height) db = (mark_confirmed now id height db).1
  perform (record_miss now id at original) db = (record_broadcast_miss now id at original db).1
  perform (reschedule now id at defer fee) db = (update_reschedule now id at defer fee db).1
  perform (price_schedule now id price currency condition fee) db =
      (update_price_schedule now id price currency condition fee db).1
  perform (due now id) db = (mark_due now id db).1
  perform (price_due now id) db = (mark_due_from_price_trigger now id db).1
  perform (due_at now id at) db = (mark_due_with_schedule now id at db).1
  perform (remove id) db = (remove_broadcast_tx id db).1

  unfoldable pub perform_all : List Statement → Database → Database
  unfolding perform
  perform_all [] db = db
  perform_all (w ∷ ws) db = perform_all ws (perform w db)

  -- An update of the row under `id` that is followed by a reseal.
  update_reseal :
      (id : String) (test : Row → Bool) (f : Row → Row)
      → ((r : Row) → test r ≡ true → by_id id r ≡ true)
      → ((r : Row) → (f r).id ≡ r.id)
      → (db : Database) → AllSealed db
      → AllSealed (reseal_row_mac id (record db { pool = update_where test f db.pool })).1
  update_reseal id test f fits keeps db v =
      reseal_row_mac-AllSealed id _ (Distinct-update_where id f keeps test db.pool v.distinct)
        (SealedBut-update_where db.key id test f fits keeps db.pool v.sealed)

  reset-AllSealed :
      (now : ℕ) (id : String) (db : Database)
      → AllSealed db
      → AllSealed (reset_failed_to_scheduled now id db).1
  unfolding reset_failed_to_scheduled
  reset-AllSealed now id db v = elim (Bool-cases (length (select test db.pool) == 0)) [
    | inl e ↦ rw e v
    | inr e ↦ rw e (update_reseal id test _ (λ r h. ground arith) (λ r. refl) db v)
  ]
    where
      test : Row → Bool
      test r = by_id id r && str_eq r.status "failed"

  Fresh-append : (id : String) (rs ss : List Row) → Fresh id rs → Fresh id ss → Fresh id (rs ++ ss)
  Fresh-append id rs ss h k = All-append (λ r. by_id id r ≡ false) rs ss h k

  str_eq-sym : (s t : String) → str_eq s t ≡ false → str_eq t s ≡ false
  str_eq-sym s t h = ground (arith, str_eq_iff s t, str_eq_iff t s)

  Distinct-snoc :
      (rs : List Row) (r : Row) → find r.id rs ≡ none → Distinct rs → Distinct (rs ++ r ∷ [])
  unfolding find
  Distinct-snoc [] r e d = (tt, tt)
  Distinct-snoc (x ∷ rs) r e d = elim (Bool-cases (by_id r.id x)) [
    | inl hit ↦ absurd (ground arith)
    | inr miss ↦ (
      Fresh-append x.id rs (r ∷ []) d.0 (str_eq-sym x.id r.id miss, tt),
      Distinct-snoc rs r (ground arith) d.1,
    )
  ]

  get-state : (now : ℕ) (id : String) (db : Database) → (get_broadcast_tx_by_id now id db).1 ≡ db
  unfolding get_broadcast_tx_by_id
  get-state now id db = ground arith

  new_row-IsSealed :
      (key : List ℕ) (now : ℕ) (id : String) (nonce : ℕ → List ℕ) (derived : Option ℕ)
      (tx : NewBroadcastTx)
      → IsSealed key (new_row key now id nonce derived tx)
  unfolding new_row expected_mac
  new_row-IsSealed key now id nonce derived tx = refl

  insert-AllSealed :
      (now : ℕ) (id : String) (nonce : ℕ → List ℕ) (derived : Option ℕ) (tx : NewBroadcastTx)
      (db : Database)
      → AllSealed db
      → AllSealed (insert_broadcast_tx now id nonce derived tx db).1
  unfolding insert_broadcast_tx
  insert-AllSealed now id nonce derived tx db v = go (find id db.pool) refl
    where
      row : Row
      row = new_row db.key now id nonce derived tx

      go :
          (o : Option Row)
          → find id db.pool ≡ o
          → AllSealed (insert_broadcast_tx now id nonce derived tx db).1
      go (some _) e = rw (e, insert_broadcast_tx) v
      go none e =
          rw (e, insert_broadcast_tx)
            (if-cases (λ (x : Result BroadcastTx × Database). AllSealed x.1)
              (leb (2 ^ 63) (unwrap_or tx.nlocktime 0)) (λ _. v)
              (λ _. rw (get-state now id _) (record {
                distinct = Distinct-snoc db.pool row (unfold new_row in e) v.distinct;
                sealed =
                    All-append (IsSealed db.key) db.pool (row ∷ []) v.sealed
                      (new_row-IsSealed db.key now id nonce derived tx, tt);
              })))

  sealed-update_where :
      (key : List ℕ) (test : Row → Bool) (f : Row → Row)
      → ((r : Row) → IsSealed key r → IsSealed key (f r))
      → (rs : List Row) → All (IsSealed key) rs
      → All (IsSealed key) (update_where test f rs)
  unfolding update_where
  sealed-update_where key test f keeps [] h = tt
  sealed-update_where key test f keeps (r ∷ rs) h = elim (Bool-cases (test r)) [
    | inl e ↦ rw e (keeps r h.0, sealed-update_where key test f keeps rs h.1)
    | inr e ↦ rw e (h.0, sealed-update_where key test f keeps rs h.1)
  ]

  pub record_miss-AllSealed :
      (now : ℕ) (id at : String) (original : Option String) (db : Database)
      → AllSealed db
      → AllSealed (record_broadcast_miss now id at original db).1
  unfolding record_broadcast_miss expected_mac
  record_miss-AllSealed now id at original db v = record {
    distinct = Distinct-update_where id _ (λ r. refl) _ db.pool v.distinct;
    sealed = sealed-update_where db.key _ _ (λ r h. h) db.pool v.sealed;
  }

  Distinct-select : (test : Row → Bool) (rs : List Row) → Distinct rs → Distinct (select test rs)
  Distinct-select test [] d = tt
  Distinct-select test (r ∷ rs) d = elim (Bool-cases (test r)) [
    | inl e ↦ rw e (All-select (λ x. by_id r.id x ≡ false) test rs d.0, Distinct-select test rs d.1)
    | inr e ↦ rw e (Distinct-select test rs d.1)
  ]

  remove-AllSealed :
      (id : String) (db : Database) → AllSealed db → AllSealed (remove_broadcast_tx id db).1
  unfolding remove_broadcast_tx
  remove-AllSealed id db v = record {
    distinct = Distinct-select _ db.pool v.distinct;
    sealed = All-select (IsSealed db.key) _ db.pool v.sealed;
  }

  -- Every statement, whether it succeeds or fails, keeps every row sealed, and the ids distinct.
  pub perform-AllSealed : (w : Statement) (db : Database) → AllSealed db → AllSealed (perform w db)
  unfolding perform update_tx_status mark_broadcast mark_confirmed update_reschedule
      update_price_schedule mark_due mark_due_from_price_trigger mark_due_with_schedule
  perform-AllSealed (insert now id nonce derived tx) db v =
      insert-AllSealed now id nonce derived tx db v
  perform-AllSealed (set_status now id status error) db v =
      update_reseal id (by_id id) _ (λ r h. h) (λ r. refl) db v
  perform-AllSealed (reset_failed now id) db v = reset-AllSealed now id db v
  perform-AllSealed (broadcast now id txid fee) db v =
      update_reseal id (by_id id) _ (λ r h. h) (λ r. refl) db v
  perform-AllSealed (confirm now id height) db v =
      update_reseal id (by_id id) _ (λ r h. h) (λ r. refl) db v
  perform-AllSealed (record_miss now id at original) db v =
      record_miss-AllSealed now id at original db v
  perform-AllSealed (reschedule now id at defer fee) db v =
      update_reseal id (by_id id) _ (λ r h. h) (λ r. refl) db v
  perform-AllSealed (price_schedule now id price currency condition fee) db v =
      update_reseal id (by_id id) _ (λ r h. h) (λ r. refl) db v
  perform-AllSealed (due now id) db v = update_reseal id (by_id id) _ (λ r h. h) (λ r. refl) db v
  perform-AllSealed (price_due now id) db v =
      update_reseal id (by_id id) _ (λ r h. h) (λ r. refl) db v
  perform-AllSealed (due_at now id at) db v =
      update_reseal id (by_id id) _ (λ r h. h) (λ r. refl) db v
  perform-AllSealed (remove id) db v = remove-AllSealed id db v

  -- From a database whose rows are sealed, any sequence of the statements leaves all rows sealed: no
  -- write of these is later taken for tampering.
  pub perform_all-AllSealed :
      (ws : List Statement) (db : Database) → AllSealed db → AllSealed (perform_all ws db)
  unfolding perform_all
  perform_all-AllSealed [] db v = v
  perform_all-AllSealed (w ∷ ws) db v =
      perform_all-AllSealed ws (perform w db) (perform-AllSealed w db v)
