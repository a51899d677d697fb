-- ===== src/Db/Stats/Counts.antt =====
-- What `get_pool_stats` of src/db/mod.rs counts, in terms of the rows.
use broadcast_pool.Prelude.{
  ℕ, ◌+◌, String, Bool, true, false, ◌≡◌, refl, ◌∙◌, List, [], ◌∷◌, length, select, str_eq,
  str_eq_iff, if◌then◌else◌, arith, All, ok, Bool-cases, inl, inr,
}
use broadcast_pool.Platform.{Platform}
use broadcast_pool.Models.{PoolStats}
use broadcast_pool.Db.{Row, Database}
use broadcast_pool.Db.Stats.{
  Group, add_to_group, group_by_status, add_group, add_groups, get_pool_stats, no_stats,
}

abbrev pub has_status : String → Row → Bool
has_status st r = str_eq r.status st

-- The number of rows in a status.
pub count : String → List Row → ℕ
count st rs = length (select (has_status st) rs)

-- The same numbers, taken over groups.
group_count : String → List Group → ℕ
group_count st [] = 0
group_count st (g ∷ gs) = (if str_eq g.status st then g.count else 0) + group_count st gs

group_total : List Group → ℕ
group_total [] = 0
group_total (g ∷ gs) = g.count + group_total gs

-- A row counts in the group of its status.
group_count-add_to_group :
    (st : String) (r : Row) (gs : List Group)
    → group_count st (add_to_group r gs) ≡ (if str_eq r.status st then 1 else 0) + group_count st gs
unfolding add_to_group group_count
group_count-add_to_group st r [] = ground arith
group_count-add_to_group st r (g ∷ gs) =
    ground (arith, group_count-add_to_group st r gs, str_eq_iff g.status r.status)

group_total-add_to_group :
    (r : Row) (gs : List Group) → group_total (add_to_group r gs) ≡ 1 + group_total gs
unfolding add_to_group group_total
group_total-add_to_group r [] = ground arith
group_total-add_to_group r (g ∷ gs) = ground (arith, group_total-add_to_group r gs)

group_count-group_by_status :
    (st : String) (rs : List Row) → group_count st (group_by_status rs) ≡ count st rs
unfolding group_by_status count group_count
group_count-group_by_status st [] = refl
group_count-group_by_status st (r ∷ rs) =
    ground
      (arith, group_count-add_to_group st r (group_by_status rs), group_count-group_by_status st rs)

group_total-group_by_status : (rs : List Row) → group_total (group_by_status rs) ≡ length rs
unfolding group_by_status group_total
group_total-group_by_status [] = refl
group_total-group_by_status (r ∷ rs) =
    ground (arith, group_total-add_to_group r (group_by_status rs), group_total-group_by_status rs)

-- No group has this status.
abbrev Lacks : String → List Group → Type 0
Lacks st = All (λ g. str_eq g.status st ≡ false)

abbrev OneEach : List Group → Type 0
OneEach [] = Unit
OneEach (g ∷ gs) = Lacks g.status gs × OneEach gs

Lacks-add_to_group :
    (st : String) (r : Row) (gs : List Group)
    → str_eq r.status st ≡ false
    → Lacks st gs
    → Lacks st (add_to_group r gs)
unfolding add_to_group
Lacks-add_to_group st r [] e h = (e, tt)
Lacks-add_to_group st r (g ∷ gs) e h = elim (Bool-cases (str_eq g.status r.status)) [
  | inl hit ↦ rw hit h
  | inr miss ↦ rw miss (h.0, Lacks-add_to_group st r gs e h.1)
]

OneEach-add_to_group : (r : Row) (gs : List Group) → OneEach gs → OneEach (add_to_group r gs)
unfolding add_to_group
OneEach-add_to_group r [] h = (tt, tt)
OneEach-add_to_group r (g ∷ gs) h = elim (Bool-cases (str_eq g.status r.status)) [
  | inl hit ↦ rw hit h
  | inr miss ↦ rw miss (
    Lacks-add_to_group g.status r gs
        (ground (arith, str_eq_iff g.status r.status, str_eq_iff r.status g.status)) h.0,
    OneEach-add_to_group r gs h.1,
  )
]

OneEach-group_by_status : (rs : List Row) → OneEach (group_by_status rs)
unfolding group_by_status
OneEach-group_by_status [] = tt
OneEach-group_by_status (r ∷ rs) =
    OneEach-add_to_group r (group_by_status rs) (OneEach-group_by_status rs)

zero-Lacks : (st : String) (gs : List Group) → Lacks st gs → group_count st gs ≡ 0
unfolding group_count
zero-Lacks st [] h = refl
zero-Lacks st (g ∷ gs) h = ground (arith, zero-Lacks st gs h.1)

-- A counter that a group of the status `st` sets, and that no other group touches.
module _ ⦃p : Platform⦄ (st : String) (get : PoolStats → ℕ)
    (hit : (s : PoolStats) (g : Group) → str_eq g.status st ≡ true → get (add_group s g) ≡ g.count)
    (miss : (s : PoolStats) (g : Group)
      → str_eq g.status st ≡ false
      → get (add_group s g) ≡ get s) where
  kept_counter : (s : PoolStats) (gs : List Group) → Lacks st gs → get (add_groups s gs) ≡ get s
  unfolding add_groups
  kept_counter s [] h = refl
  kept_counter s (g ∷ gs) h = kept_counter (add_group s g) gs h.1 ∙ miss s g h.0

  rename :
      (g : Group) (gs : List Group) → str_eq g.status st ≡ true → Lacks g.status gs → Lacks st gs
  rename g gs e = rw ((str_eq_iff g.status st).0 e) (λ h. h)

  counter-add_groups :
      (s : PoolStats) (gs : List Group)
      → OneEach gs
      → get s ≡ 0
      → get (add_groups s gs) ≡ group_count st gs
  unfolding add_groups group_count
  counter-add_groups s [] h e = e
  counter-add_groups s (g ∷ gs) h e = elim (Bool-cases (str_eq g.status st)) [
    | inl same ↦
        let lacks = rename g gs same h.0 in
        ground (arith, kept_counter (add_group s g) gs lacks, hit s g same, zero-Lacks st gs lacks)
    | inr other ↦ ground (arith, counter-add_groups (add_group s g) gs h.1 (miss s g other ∙ e))
  ]

total-add_groups :
    ⦃p : Platform⦄ (s : PoolStats) (gs : List Group)
    → (add_groups s gs).total_transactions ≡ s.total_transactions + group_total gs
unfolding add_groups add_group group_total
total-add_groups s [] = ground arith
total-add_groups s (g ∷ gs) = ground (arith, total-add_groups (add_group s g) gs)

counted :
    ⦃p : Platform⦄ (st : String) (get : PoolStats → ℕ)
    → ((s : PoolStats) (g : Group) → str_eq g.status st ≡ true → get (add_group s g) ≡ g.count)
    → ((s : PoolStats) (g : Group) → str_eq g.status st ≡ false → get (add_group s g) ≡ get s)
    → get no_stats ≡ 0
    → (rs : List Row) → get (add_groups no_stats (group_by_status rs)) ≡ count st rs
counted st get hit miss start rs =
    counter-add_groups st get hit miss no_stats (group_by_status rs) (OneEach-group_by_status rs)
      start
    ∙ group_count-group_by_status st rs

-- The statistics of a network, which come from groups by status, count its rows one by one: their
-- number, and the number in each status. The database stays as it is.
pub get_pool_stats-counts :
    ⦃p : Platform⦄ (network : String) (db : Database)
    → let rs = select (λ r. str_eq r.network network) db.pool in
      (s : PoolStats) × ((get_pool_stats network db ≡ (ok s, db))
        × ((s.total_transactions ≡ length rs)
            × ((s.pending ≡ count "pending" rs)
                × ((s.scheduled ≡ count "scheduled" rs)
                    × ((s.broadcast ≡ count "broadcast" rs)
                        × ((s.confirmed ≡ count "confirmed" rs)
                            × (s.failed ≡ count "failed" rs)))))))
unfolding get_pool_stats add_group
get_pool_stats-counts network db =
    let rs = select (λ r. str_eq r.network network) db.pool in
    let gs = group_by_status rs in
    (
      add_groups no_stats gs,
      (
        refl,
        (
          omega (arith, total-add_groups no_stats gs, group_total-group_by_status rs),
          (
            counted "pending" (λ s. s.pending) (λ s g e. ground arith) (λ s g e. ground arith) refl
                rs,
            (
              counted "scheduled" (λ s. s.scheduled)
                  (λ s g e. simp ((str_eq_iff g.status "scheduled").0 e)) (λ s g e. ground arith)
                  refl rs,
              (
                counted "broadcast" (λ s. s.broadcast)
                    (λ s g e. simp ((str_eq_iff g.status "broadcast").0 e)) (λ s g e. ground arith)
                    refl rs,
                (
                  counted "confirmed" (λ s. s.confirmed)
                      (λ s g e. simp ((str_eq_iff g.status "confirmed").0 e))
                      (λ s g e. ground arith) refl rs,
                  counted "failed" (λ s. s.failed)
                      (λ s g e. simp ((str_eq_iff g.status "failed").0 e)) (λ s g e. ground arith)
                      refl rs,
                ),
              ),
            ),
          ),
        ),
      ),
    )
