-- ===== src/Db/Open/Reclassified.antt =====
-- What migration 007 of src/db/mod.rs does to a row that is sealed.
use broadcast_pool.Prelude.{
  ℕ, String, Bool, true, false, not, ◌&&◌, some, List, [], ◌∷◌, if◌then◌else◌, map, str_eq,
  str_eq_iff, str_eq_refl, ◌≡◌, ◌≢◌, ◌⊎◌, refl, sym, ◌∙◌, ap, arith, Bool-cases, inl, inr, ok,
}
use broadcast_pool.Platform.{Platform}
use broadcast_pool.Models.{BroadcastTx}
use broadcast_pool.Db.{
  Row, Database, find, update_where, expected_mac, map_broadcast_row, same_text,
}
use broadcast_pool.Db.Find.{read-found}
use broadcast_pool.Db.Seal.{IsSealed}
use broadcast_pool.Db.Write.{get_broadcast_tx_by_id}
use broadcast_pool.Db.Open.{migration_007}
use broadcast_pool.Db.Read.{column_is}

find-mapped :
    (id : String) (f : Row → Row)
    → ((r : Row) → (f r).id ≡ r.id)
    → (rs : List Row) (r : Row) → find id rs ≡ some r
    → find id (map f rs) ≡ some (f r)
unfolding find
find-mapped id f keeps [] r e = absurd (ground arith)
find-mapped id f keeps (x ∷ rs) r e = ground (arith, find-mapped id f keeps rs r, keeps x)

abbrev pub is_waiting : Row → Bool
is_waiting r = column_is r.broadcast_mode "immediate" && str_eq r.status "pending"

abbrev pub reclassify : Row → Row
reclassify r = if is_waiting r then record r { broadcast_mode = some "imported" } else r

not-not : (b : Bool) → not (not b) ≡ b
not-not true = refl
not-not false = refl

reclassify-id : (r : Row) → (reclassify r).id ≡ r.id
reclassify-id r = ground arith

module _ ⦃p : Platform⦄ (key : List ℕ) where
  unequal :
      (r q : Row)
      → IsSealed key r
      → q.row_mac ≡ r.row_mac
      → expected_mac key q ≢ expected_mac key r
      → same_text q.row_mac (expected_mac key q) ≡ false
  unfolding expected_mac
  unequal r q sealed kept differs = rw (kept, sealed) (go (Bool-cases _))
    where
      go :
          (str_eq (expected_mac key r) (expected_mac key q) ≡ true)
            ⊎ (str_eq (expected_mac key r) (expected_mac key q) ≡ false)
          → str_eq (expected_mac key r) (expected_mac key q) ≡ false
      go (inl e) = absurd (differs (sym ((str_eq_iff _ _).0 e)))
      go (inr e) = e

  reclassify-mac : (r : Row) → (reclassify r).row_mac ≡ r.row_mac
  reclassify-mac r = ground arith

  tampered-same :
      (now : ℕ) (q : Row)
      → (map_broadcast_row now key q).tampered
        ≡ some (not (same_text q.row_mac (expected_mac key q)))
  unfolding map_broadcast_row
  tampered-same now q = refl

  still-sealed : (r : Row) → IsSealed key r → same_text r.row_mac (expected_mac key r) ≡ true
  still-sealed r sealed =
      ap (λ o. same_text o (expected_mac key r)) sealed ∙ str_eq_refl (expected_mac key r)

  -- A sealed row whose MAC tells its columns from those with the mode "imported" is read after
  -- migration 007 as tampered where its mode was "immediate" and it was pending, and as untampered
  -- otherwise.
  pub migration_007-Read :
      (now : ℕ) (id : String) (db : Database) (r : Row)
      → db.key ≡ key
      → find id db.pool ≡ some r
      → IsSealed key r
      → (is_waiting r ≡ true → expected_mac key (reclassify r) ≢ expected_mac key r)
      → (tx : BroadcastTx) × (((get_broadcast_tx_by_id now id (migration_007 db).1).0 ≡ ok tx)
          × (tx.tampered ≡ some (is_waiting r)))
  unfolding migration_007 update_where
  migration_007-Read now id db r opened here sealed differs = (
    map_broadcast_row now db.key (reclassify r),
    (
      read-found now id (migration_007 db).1 (reclassify r)
          (find-mapped id reclassify reclassify-id db.pool r here),
      ap (λ k. (map_broadcast_row now k (reclassify r)).tampered) opened
          ∙ tampered-same now (reclassify r)
          ∙ ap (λ b. some (not b)) (outcome (Bool-cases (is_waiting r)))
          ∙ ap some (not-not (is_waiting r)),
    ),
  )
    where
      outcome :
          (is_waiting r ≡ true) ⊎ (is_waiting r ≡ false)
          → same_text (reclassify r).row_mac (expected_mac key (reclassify r)) ≡ not (is_waiting r)
      outcome (inl e) =
          unequal r (reclassify r) sealed (reclassify-mac r) (differs e) ∙ sym (ap not e)
      outcome (inr e) =
          let same : reclassify r ≡ r =
            ap (λ b. if b then record r { broadcast_mode = some "imported" } else r) e in
          ap (λ q. same_text q.row_mac (expected_mac key q)) same
          ∙ still-sealed r sealed
          ∙ sym (ap not e)
