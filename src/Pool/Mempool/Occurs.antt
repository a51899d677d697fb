-- ===== src/Pool/Mempool/Occurs.antt =====
-- How often a scripthash is listed, and what a merge of src/pool/manager.rs makes of that.
use broadcast_pool.Prelude.{
  ℕ, ◌+◌, min, ltb, String, true, List, [], ◌∷◌, ◌++◌, str_eq, str_eq_iff, if◌then◌else◌, ◌≡◌, refl,
  arith,
}
use broadcast_pool.Pool.Safe.{contains_text}
use broadcast_pool.Pool.Mempool.{newly_added}

-- How often a text stands in a list.
unfoldable pub occurs : String → List String → ℕ
occurs sh [] = 0
occurs sh (x ∷ xs) = let rest = occurs sh xs in if str_eq x sh then rest + 1 else rest

contains_text-occurs :
    (known : List String) (sh : String) → contains_text known sh ≡ ltb 0 (occurs sh known)
unfolding contains_text occurs
contains_text-occurs [] sh = refl
contains_text-occurs (x ∷ known) sh = ground (arith, contains_text-occurs known sh)

pub occurs-append :
    (sh : String) (xs ys : List String) → occurs sh (xs ++ ys) ≡ occurs sh xs + occurs sh ys
unfolding occurs
occurs-append sh [] ys = ground arith
occurs-append sh (x ∷ xs) ys = ground (arith, occurs-append sh xs ys)

occurs_one : (sh x : String) → occurs sh (x ∷ []) ≡ (if str_eq x sh then 1 else 0)
unfolding occurs
occurs_one sh x = ground arith

occurs_same : (x sh : String) (xs : List String) → str_eq x sh ≡ true → occurs x xs ≡ occurs sh xs
occurs_same x sh xs e = rw ((str_eq_iff x sh).0 e) refl

-- A list of new scripthashes has each that is not known once.
pub occurs-newly_added :
    (sh : String) (known extra : List String)
    → occurs sh (newly_added known extra)
      ≡ (if ltb 0 (occurs sh known) then 0 else min 1 (occurs sh extra))
unfolding newly_added occurs
occurs-newly_added sh known [] = ground arith
occurs-newly_added sh known (x ∷ extra) = ground (
  arith,
  contains_text-occurs known x,
  occurs_same x sh known,
  occurs-append sh known (x ∷ []),
  occurs_one sh x,
  occurs-newly_added sh known extra,
  occurs-newly_added sh (known ++ x ∷ []) extra,
)
