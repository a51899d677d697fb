-- ===== src/Electrum/Inject/Complete.antt =====
-- What the lists of src/pool/virtual_mempool.rs hold after an injection.
use broadcast_pool.Prelude.{
  ℕ, ◌<◌, ◌^◌, String, true, false, ◌&&◌, ◌||◌, not, Option, some, List, [], ◌∷◌, ◌++◌, str_eq_iff,
  str_eq_refl, unwrap_or, ◌≡◌, refl, ◌∙◌, ap, Bool-cases, inl, inr, arith, lt→ltb, map, filter_map,
  filter_map-append, filter_map-map,
}
use mathlib.Core.List.{append-nil}
use mathlib.Core.Path.{ap₂}
use broadcast_pool.Pool.Safe.{contains_text}
use broadcast_pool.Json.{
  Value, array, nil, cons, get, as_str, as_array, nth, and_then, find_field, to_list, from_list,
  from_u64, from_i64, pos, as_i64, to_list-from_list,
}
use broadcast_pool.Electrum.Inject.{
  missing, inject, inject_in_history, history_entry, history_id, mempool_entry, mempool_id,
  mempool_parts, inject_get_mempool,
}

pub contains-append :
    (xs ys : List String) (t : String)
    → contains_text (xs ++ ys) t ≡ (contains_text xs t || contains_text ys t)
unfolding contains_text
contains-append [] ys t = refl
contains-append (x ∷ xs) ys t = ground (arith, contains-append xs ys t)

-- An id that is not listed is missing just where it is pending.
contains-missing :
    (existing pending : List String) (t : String)
    → contains_text (missing existing pending) t
      ≡ (not (contains_text existing t) && contains_text pending t)
unfolding contains_text missing
contains-missing existing [] t = ground arith
contains-missing existing (p ∷ pending) t =
    ground (arith, contains-missing existing pending t, str_eq_iff p t)

module _ (id : Value → Option String) (entry : String → Value)
    (names : (t : String) → id (entry t) ≡ some t) where
  ids-inject :
      (listed : List Value) (pending : List String)
      → filter_map id (inject id entry listed pending)
        ≡ filter_map id listed ++ missing (filter_map id listed) pending
  unfolding inject
  ids-inject listed pending =
      filter_map-append id listed _
      ∙ ap (λ k. filter_map id listed ++ k) (filter_map-map id entry _ names)

  -- A list names after an injection just what it named and what is pending.
  pub inject-Complete :
      (listed : List Value) (pending : List String) (t : String)
      → contains_text (filter_map id (inject id entry listed pending)) t
        ≡ (contains_text (filter_map id listed) t || contains_text pending t)
  inject-Complete listed pending t =
      let e = ids-inject listed pending in
      rw
        (
          e,
          contains-append (filter_map id listed) (missing (filter_map id listed) pending) t,
          contains-missing (filter_map id listed) pending t,
        )
        (ground arith)

  missing-none :
      (existing pending : List String)
      → ((t : String) → contains_text pending t ≡ true → contains_text existing t ≡ true)
      → missing existing pending ≡ []
  unfolding missing contains_text
  missing-none existing [] h = refl
  missing-none existing (p ∷ pending) h =
      let here = h p (rw (str_eq_refl p) refl) in
      let later = missing-none existing pending (λ t e. h t (ground (arith))) in
      rw (here, later) refl

  pub inject_idempotent :
      (listed : List Value) (pending : List String)
      → inject id entry (inject id entry listed pending) pending ≡ inject id entry listed pending
  unfolding inject
  inject_idempotent listed pending =
      let none_left =
        missing-none (filter_map id (inject id entry listed pending)) pending
          (λ t e. ground (arith, inject-Complete listed pending t)) in
      ap (λ m. inject id entry listed pending ++ map entry m) none_left ∙ append-nil _

-- No text stands twice.
abbrev pub Distinct : List String → Type 0
Distinct [] = Unit
Distinct (t ∷ ts) = (contains_text ts t ≡ false) × Distinct ts

missing-Distinct :
    (existing pending : List String) → Distinct pending → Distinct (missing existing pending)
unfolding missing
missing-Distinct existing [] d = tt
missing-Distinct existing (p ∷ pending) d = elim (Bool-cases (contains_text existing p)) [
  | inl e ↦ rw e (missing-Distinct existing pending d.1)
  | inr e ↦ rw e (
    ground (arith, contains-missing existing pending p, d.0),
    missing-Distinct existing pending d.1,
  )
]

append-Distinct :
    (xs ys : List String)
    → Distinct xs
    → Distinct ys
    → ((t : String) → contains_text ys t ≡ true → contains_text xs t ≡ false)
    → Distinct (xs ++ ys)
unfolding contains_text
append-Distinct [] ys d e h = e
append-Distinct (x ∷ xs) ys d e h = (
  ground (arith, contains-append xs ys x, h x, str_eq_refl x, d.0),
  append-Distinct xs ys d.1 e (λ t k. ground (arith, h t k)),
)

inject-Distinct :
    (id : Value → Option String) (entry : String → Value)
    (names : (t : String) → id (entry t) ≡ some t) (listed : List Value) (pending : List String)
    → Distinct pending
    → Distinct (filter_map id listed)
    → Distinct (filter_map id (inject id entry listed pending))
inject-Distinct id entry names listed pending d e =
    let ids = filter_map id listed in
    rw (ids-inject id entry names listed pending) (
      append-Distinct ids (missing ids pending) e (missing-Distinct ids pending d)
        (λ t k. ground (arith, contains-missing ids pending t)))

history_id-entry : (t : String) → history_id (history_entry t) ≡ some t
unfolding history_id get find_field and_then as_str
history_id-entry t = refl

mempool_id-entry : (t : String) → mempool_id (mempool_entry t) ≡ some t
unfolding mempool_id as_array nth and_then as_str to_list
mempool_id-entry t = refl

mempool_names :
    (fee : ℕ) (txs : List Value) (pending : List String) (txid : String)
    → fee < 2 ^ 63
    → (injected : List Value) × ((inject_get_mempool
            (array (cons (from_u64 fee) (cons (array (from_list txs)) nil)))
            pending
          ≡ array (cons (from_u64 fee) (cons (array (from_list injected)) nil)))
        × (contains_text (filter_map mempool_id injected) txid
            ≡ (contains_text (filter_map mempool_id txs) txid || contains_text pending txid)))
unfolding inject_get_mempool mempool_parts as_array to_list nth and_then as_i64 contains_text
mempool_names fee txs [] txid b = (txs, (refl, ground arith))
mempool_names fee txs (p ∷ ps) txid b =
    let fee_read : unwrap_or (and_then (some (from_u64 fee)) as_i64) (pos 0) ≡ pos fee =
      ground (arith, lt→ltb fee (2 ^ 63) b) in
    (
      inject mempool_id mempool_entry txs (p ∷ ps),
      (
        ap₂
            (λ total listed. array (
              cons (from_i64 total)
                (cons (array (from_list (inject mempool_id mempool_entry listed (p ∷ ps)))) nil)))
            fee_read (to_list-from_list txs),
        inject-Complete mempool_id mempool_entry mempool_id-entry txs (p ∷ ps) txid,
      ),
    )

pub history_Complete :
    (history : List Value) (pending : List String) (txid : String)
    → contains_text (filter_map history_id (inject_in_history history pending)) txid
      ≡ (contains_text (filter_map history_id history) txid || contains_text pending txid)
unfolding inject_in_history
history_Complete = inject-Complete history_id history_entry history_id-entry

-- After an injection a history names an id where the indexer's history names it or it is pending, and
-- an answer to `get_mempool` of the indexer's shape likewise, with its fee as it was.
pub inject-Names :
    (history : List Value) (fee : ℕ) (txs : List Value) (pending : List String) (txid : String)
    → fee < 2 ^ 63
    → (contains_text (filter_map history_id (inject_in_history history pending)) txid
        ≡ (contains_text (filter_map history_id history) txid || contains_text pending txid))
      × ((injected : List Value) × ((inject_get_mempool
                (array (cons (from_u64 fee) (cons (array (from_list txs)) nil)))
                pending
              ≡ array (cons (from_u64 fee) (cons (array (from_list injected)) nil)))
            × (contains_text (filter_map mempool_id injected) txid
                ≡ (contains_text (filter_map mempool_id txs) txid || contains_text pending txid))))
unfolding inject_in_history
inject-Names history fee txs pending txid b =
    (history_Complete history pending txid, mempool_names fee txs pending txid b)

-- Where neither the pending ids nor the history's repeat, the injected history's do not, and injecting
-- again changes nothing.
pub inject_in_history-Once :
    (history : List Value) (pending : List String)
    → Distinct pending
    → Distinct (filter_map history_id history)
    → Distinct (filter_map history_id (inject_in_history history pending))
      × (inject_in_history (inject_in_history history pending) pending
          ≡ inject_in_history history pending)
unfolding inject_in_history
inject_in_history-Once history pending d e = (
  inject-Distinct history_id history_entry history_id-entry history pending d e,
  inject_idempotent history_id history_entry history_id-entry history pending,
)
