-- ===== src/Db/Seal.antt =====
-- The integrity seal of src/db/mod.rs: which statements leave every row with the MAC that its columns
-- call for.
pub mod Binds
pub mod Writes
use broadcast_pool.Prelude.{
  ◌↔◌, ℕ, String, Bool, true, false, not, ◌&&◌, ◌≡◌, ◌≢◌, refl, sym, ap, ◌∙◌, Option, none, some,
  List, [], ◌∷◌, ◌++◌, map, str_eq, str_eq_iff, str_eq_refl, if◌then◌else◌, Result, ok, err, All,
  All-mono, All-append, All-select, arith, Bool-cases, inl, inr, select, unwrap_or,
}
use mathlib.Core.Option
use broadcast_pool.Platform.{Platform}
use broadcast_pool.Models.{BroadcastTx}
use broadcast_pool.Db.{
  Row, Database, by_id, find, update_where, expected_mac, same_text, reseal_row_mac,
  map_broadcast_row,
}

-- No two rows share an `id`: the primary key.
abbrev pub Fresh : String → List Row → Type 0
Fresh id = All (λ r. by_id id r ≡ false)

abbrev pub Distinct : List Row → Type 0
Distinct [] = Unit
Distinct (r ∷ rs) = Fresh r.id rs × Distinct rs

module _ ⦃p : Platform⦄ where
  abbrev pub IsSealed : List ℕ → Row → Type 0
  IsSealed key r = r.row_mac ≡ some (expected_mac key r)

  -- Every row has an `id` of its own and the MAC that its columns call for.
  pub record AllSealed (db : Database) : Type 0 where
    pub distinct : Distinct db.pool
    pub sealed : All (IsSealed db.key) db.pool

  -- Reading a row reports tampering exactly when the stored MAC is not the one that the columns
  -- call for.
  pub tampered-map_broadcast_row :
      (now : ℕ) (key : List ℕ) (r : Row)
      → ((map_broadcast_row now key r).tampered ≡ some false) ↔ IsSealed key r
  unfolding map_broadcast_row
  tampered-map_broadcast_row now key r = go r.row_mac refl
    where
      go :
          (o : Option String)
          → r.row_mac ≡ o
          → ((map_broadcast_row now key r).tampered ≡ some false) ↔ IsSealed key r
      go none e = ((λ h. ground arith), λ h. ground arith)
      go (some m) e = (
        (λ h. ground (arith, str_eq_iff m (expected_mac key r))),
        λ h. ground (arith, str_eq_iff m (expected_mac key r)),
      )

module _ (id : String) (f : Row → Row) (keeps : (r : Row) → (f r).id ≡ r.id) where
  Fresh-update_where :
      (test : Row → Bool) (j : String) (rs : List Row)
      → Fresh j rs
      → Fresh j (update_where test f rs)
  unfolding update_where
  Fresh-update_where test j [] h = tt
  Fresh-update_where test j (r ∷ rs) h = elim (Bool-cases (test r)) [
    | inl e ↦ rw e ((rw (keeps r) h.0), Fresh-update_where test j rs h.1)
    | inr e ↦ rw e (h.0, Fresh-update_where test j rs h.1)
  ]

  pub Distinct-update_where :
      (test : Row → Bool) (rs : List Row) → Distinct rs → Distinct (update_where test f rs)
  unfolding update_where
  Distinct-update_where test [] h = tt
  Distinct-update_where test (r ∷ rs) h = elim (Bool-cases (test r)) [
    | inl e ↦
        rw e (rw (keeps r) (Fresh-update_where test r.id rs h.0), Distinct-update_where test rs h.1)
    | inr e ↦ rw e (Fresh-update_where test r.id rs h.0, Distinct-update_where test rs h.1)
  ]

module _ ⦃p : Platform⦄ (key : List ℕ) (id : String) where
  -- Sealed, but for the row under `id`.
  abbrev pub SealedBut : Row → Type 0
  SealedBut r = by_id id r ≡ false → IsSealed key r

  -- An update that touches rows of this `id` only leaves the others sealed.
  pub SealedBut-update_where :
      (test : Row → Bool) (f : Row → Row)
      → ((r : Row) → test r ≡ true → by_id id r ≡ true)
      → ((r : Row) → (f r).id ≡ r.id)
      → (rs : List Row) → All (IsSealed key) rs
      → All SealedBut (update_where test f rs)
  unfolding update_where
  SealedBut-update_where test f fits keeps [] h = tt
  SealedBut-update_where test f fits keeps (r ∷ rs) h = elim (Bool-cases (test r)) [
    | inl e ↦ rw e (
      (λ miss. absurd (ground (arith, fits r e, keeps r))),
      SealedBut-update_where test f fits keeps rs h.1,
    )
    | inr e ↦ rw e ((λ _. h.0), SealedBut-update_where test f fits keeps rs h.1)
  ]

  abbrev reseal : String → List Row → List Row
  reseal m = update_where (by_id id) (λ x. record x { row_mac = some m })

  reseal_fresh :
      (m : String) (rs : List Row)
      → Fresh id rs
      → All SealedBut rs
      → All (IsSealed key) (reseal m rs)
  unfolding update_where
  reseal_fresh m [] h k = tt
  reseal_fresh m (r ∷ rs) h k = rw h.0 (k.0 h.0, reseal_fresh m rs h.1 k.1)

  by_id-Fresh : (r : Row) (rs : List Row) → by_id id r ≡ true → Fresh r.id rs → Fresh id rs
  by_id-Fresh r rs e = rw ((str_eq_iff r.id id).0 e) (λ h. h)

  reseal-IsSealed :
      (rs : List Row) {r : Row}
      → find id rs ≡ some r
      → Distinct rs
      → All SealedBut rs
      → All (IsSealed key) (reseal (expected_mac key r) rs)
  unfolding update_where find expected_mac
  reseal-IsSealed [] e d k = absurd (ground arith)
  reseal-IsSealed (x ∷ rs) {r} e d k = elim (Bool-cases (by_id id x)) [
    | inl hit ↦ rw hit (ground arith, reseal_fresh _ rs (by_id-Fresh x rs hit d.0) k.1)
    | inr miss ↦ rw miss (k.0 miss, reseal-IsSealed rs {r = r} (ground arith) d.1 k.1)
  ]

module _ ⦃p : Platform⦄ where
  find_none :
      (key : List ℕ) (id : String) (rs : List Row)
      → find id rs ≡ none
      → All (SealedBut key id) rs
      → All (IsSealed key) rs
  unfolding find
  find_none key id [] e k = tt
  find_none key id (x ∷ rs) e k = elim (Bool-cases (by_id id x)) [
    | inl hit ↦ absurd (ground arith)
    | inr miss ↦ (k.0 miss, find_none key id rs (ground arith) k.1)
  ]

  -- After `reseal_row_mac`, also when it fails, all rows are sealed if all others were.
  pub reseal_row_mac-AllSealed :
      (id : String) (db : Database)
      → Distinct db.pool
      → All (SealedBut db.key id) db.pool
      → AllSealed (reseal_row_mac id db).1
  unfolding reseal_row_mac
  reseal_row_mac-AllSealed id db d k = go (find id db.pool) refl
    where
      go : (o : Option Row) → find id db.pool ≡ o → AllSealed (reseal_row_mac id db).1
      go none e =
          rw (e, reseal_row_mac) (record { distinct = d; sealed = find_none db.key id db.pool e k })
      go (some r) e =
          rw (e, reseal_row_mac)
            (record {
              distinct =
                  Distinct-update_where id
                    (λ x. record x { row_mac = some (expected_mac db.key r) }) (λ x. refl)
                    (by_id id) db.pool d;
              sealed = reseal-IsSealed db.key id db.pool e d k;
            })
