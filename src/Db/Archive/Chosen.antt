-- ===== src/Db/Archive/Chosen.antt =====
-- Deleting the rows of `archive_terminal_older_than` of src/db/mod.rs one by one, by `id`.
use broadcast_pool.Prelude.{
  String, Bool, true, false, not, ◌||◌, ◌≡◌, refl, sym, ◌∙◌, ap, subst, List, [], ◌∷◌, map, select,
  str_eq_iff, if◌then◌else◌, arith, All, Bool-cases, inl, inr,
}
use broadcast_pool.Db.{Row, by_id}
use broadcast_pool.Db.Archive.{without_id}
use broadcast_pool.Db.Seal
use broadcast_pool.Db.Seal.{Distinct}

abbrev pub is_one_of : List String → Row → Bool
is_one_of [] r = false
is_one_of (id ∷ ids) r = by_id id r || is_one_of ids r

unfoldable pub without_ids : List String → List Row → List Row
without_ids [] rs = rs
without_ids (id ∷ ids) rs = without_ids ids (without_id id rs)

select-select :
    (p q : Row → Bool) (rs : List Row)
    → select p (select q rs) ≡ select (λ r. not (not (q r) || not (p r))) rs
select-select p q [] = refl
select-select p q (r ∷ rs) = ground (arith, select-select p q rs)

select_ext :
    (p q : Row → Bool) (rs : List Row) → All (λ r. p r ≡ q r) rs → select p rs ≡ select q rs
select_ext p q [] h = refl
select_ext p q (r ∷ rs) h = ground (arith, h.0, select_ext p q rs h.1)

All_always : (P : Row → Type 0) (rs : List Row) → ((r : Row) → P r) → All P rs
All_always P [] f = tt
All_always P (r ∷ rs) f = (f r, All_always P rs f)

without_ids-select :
    (ids : List String) (rs : List Row)
    → without_ids ids rs ≡ select (λ r. not (is_one_of ids r)) rs
unfolding without_ids
without_ids-select [] rs = keep_all rs
  where
    keep_all : (xs : List Row) → xs ≡ select (λ r. true) xs
    keep_all [] = refl
    keep_all (x ∷ xs) = ap (◌∷◌ x) (keep_all xs)
without_ids-select (id ∷ ids) rs =
    without_ids-select ids (without_id id rs)
    ∙ select-select (λ r. not (is_one_of ids r)) (λ r. if by_id id r then false else true) rs
    ∙ select_ext _ _ rs (All_always _ rs (λ r. ground arith))

abbrev pub ids_of : List Row → List String
ids_of = map (λ r. r.id)

-- An `id` that no row has is not the `id` of a selected one.
absent :
    (test : Row → Bool) (x : Row) (rs : List Row)
    → Seal.Fresh x.id rs
    → is_one_of (ids_of (select test rs)) x ≡ false
absent test x [] h = refl
absent test x (r ∷ rs) h = elim (Bool-cases (test r)) [
  | inl e ↦ ground (arith, e, h.0, absent test x rs h.1, str_eq_iff x.id r.id, str_eq_iff r.id x.id)
  | inr e ↦ ground (arith, e, absent test x rs h.1)
]

skip_head :
    (x : Row) (ids : List String) (rs : List Row) (test : Row → Bool)
    → Seal.Fresh x.id rs
    → All (λ r. is_one_of ids r ≡ test r) rs
    → All (λ r. is_one_of (x.id ∷ ids) r ≡ test r) rs
skip_head x ids [] test h k = tt
skip_head x ids (r ∷ rs) test h k = (rw h.0 k.0, skip_head x ids rs test h.1 k.1)

-- Among rows with an `id` each, the `id` tells which were selected.
chosen :
    (test : Row → Bool) (rs : List Row)
    → Distinct rs
    → All (λ r. is_one_of (ids_of (select test rs)) r ≡ test r) rs
chosen test [] d = tt
chosen test (x ∷ xs) d = elim (Bool-cases (test x)) [
  | inl e ↦ subst told (sym (taken e)) (
    ground (arith, str_eq_iff x.id x.id, e),
    skip_head x (ids_of (select test xs)) xs test d.0 (chosen test xs d.1),
  )
  | inr e ↦ subst told (sym (left e)) ((absent test x xs d.0 ∙ sym e), chosen test xs d.1)
]
  where
    told : List Row → Type 0
    told ys = All (λ r. is_one_of (ids_of ys) r ≡ test r) (x ∷ xs)

    taken : test x ≡ true → select test (x ∷ xs) ≡ x ∷ select test xs
    taken e = rw e refl

    left : test x ≡ false → select test (x ∷ xs) ≡ select test xs
    left e = rw e refl

-- Without the ids of the selected rows, the other rows are left.
pub without_ids-chosen :
    (test : Row → Bool) (rs : List Row)
    → Distinct rs
    → without_ids (ids_of (select test rs)) rs ≡ select (λ r. not (test r)) rs
without_ids-chosen test rs d =
    without_ids-select (ids_of (select test rs)) rs
    ∙ select_ext _ _ rs (negated rs (chosen test rs d))
  where
    negated :
        (xs : List Row)
        → All (λ r. is_one_of (ids_of (select test rs)) r ≡ test r) xs
        → All (λ r. not (is_one_of (ids_of (select test rs)) r) ≡ not (test r)) xs
    negated [] h = tt
    negated (x ∷ xs) h = (ap not h.0, negated xs h.1)
