-- ===== src/Db/Find.antt =====
-- Looking a row up after an update of src/db/mod.rs and its reseal.
use broadcast_pool.Prelude.{
  ℕ, String, Bool, true, false, ◌≡◌, refl, Option, none, some, List, [], ◌∷◌, str_eq, str_eq_iff,
  arith, Bool-cases, inl, inr, ok,
}
use mathlib.Core.Option
use broadcast_pool.Platform.{Platform}
use broadcast_pool.Db.Write.{get_broadcast_tx_by_id}
use broadcast_pool.Db.{
  map_broadcast_row, Row, Database, by_id, find, update_where, expected_mac, reseal_row_mac,
}

-- An update of all rows under `id` changes the row that is found under it.
pub find-update_where :
    (id : String) (f : Row → Row)
    → ((r : Row) → (f r).id ≡ r.id)
    → (rs : List Row) → find id (update_where (by_id id) f rs) ≡ Option.map f (find id rs)
unfolding find update_where
find-update_where id f keeps [] = refl
find-update_where id f keeps (r ∷ rs) = ground (arith, keeps r, find-update_where id f keeps rs)

-- An update of rows under `id` leaves what is found under another.
pub find-update_other :
    (id j : String) (test : Row → Bool) (f : Row → Row)
    → ((r : Row) → test r ≡ true → by_id id r ≡ true)
    → ((r : Row) → (f r).id ≡ r.id)
    → str_eq id j ≡ false
    → (rs : List Row) → find j (update_where test f rs) ≡ find j rs
unfolding find update_where
find-update_other id j test f fits keeps other [] = refl
find-update_other id j test f fits keeps other (r ∷ rs) = elim (Bool-cases (test r)) [
  | inl e ↦ ground (
    arith,
    e,
    fits r e,
    keeps r,
    str_eq_iff r.id id,
    str_eq_iff id j,
    str_eq_iff r.id j,
    find-update_other id j test f fits keeps other rs,
  )
  | inr e ↦ ground (arith, e, find-update_other id j test f fits keeps other rs)
]

module _ ⦃p : Platform⦄ where
  -- What does not read the MAC is the same after a reseal.
  pub find-reseal_row_mac :
      {A : Type 0} (get : Row → A)
      → ((r : Row) (m : Option String) → get (record r { row_mac = m }) ≡ get r)
      → (id : String) (db : Database)
      → Option.map get (find id (reseal_row_mac id db).1.pool) ≡ Option.map get (find id db.pool)
  unfolding reseal_row_mac
  find-reseal_row_mac get blind id db = go (find id db.pool) refl
    where
      go :
          (o : Option Row)
          → find id db.pool ≡ o
          → Option.map get (find id (reseal_row_mac id db).1.pool)
            ≡ Option.map get (find id db.pool)
      go none e = ground arith
      go (some r) e =
          let m = expected_mac db.key r in
          ground (
            arith,
            e,
            blind r (some m),
            find-update_where id (λ x. record x { row_mac = some m }) (λ x. refl) db.pool,
          )

  pub find-reseal_other :
      (id j : String) (db : Database)
      → str_eq id j ≡ false
      → find j (reseal_row_mac id db).1.pool ≡ find j db.pool
  unfolding reseal_row_mac
  find-reseal_other id j db other = go (find id db.pool) refl
    where
      go :
          (o : Option Row)
          → find id db.pool ≡ o
          → find j (reseal_row_mac id db).1.pool ≡ find j db.pool
      go none e = ground arith
      go (some r) e =
          let m = expected_mac db.key r in
          ground (
            arith,
            e,
            find-update_other id j (by_id id) (λ x. record x { row_mac = some m }) (λ x h. h)
                (λ x. refl) other db.pool,
          )

  -- A reseal of a row that is there succeeds, and the row then has the MAC of its columns.
  pub reseal_row_mac-found :
      (id : String) (db : Database) (r : Row)
      → find id db.pool ≡ some r
      → ((reseal_row_mac id db).0 ≡ ok tt)
        × (((reseal_row_mac id db).1.key ≡ db.key)
            × (find id (reseal_row_mac id db).1.pool
                ≡ some (record r { row_mac = some (expected_mac db.key r) })))
  unfolding reseal_row_mac
  reseal_row_mac-found id db r e =
      let change : Row → Row = λ x. record x { row_mac = some (expected_mac db.key r) } in
      (
        ground (arith, e),
        (ground (arith, e), ground (arith, e, find-update_where id change (λ x. refl) db.pool)),
      )

  -- A read of a row that is there.
  pub read-found :
      (now : ℕ) (id : String) (db : Database) (q : Row)
      → find id db.pool ≡ some q
      → (get_broadcast_tx_by_id now id db).0 ≡ ok (map_broadcast_row now db.key q)
  unfolding get_broadcast_tx_by_id
  read-found now id db q e = ground arith
