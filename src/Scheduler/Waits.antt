-- ===== src/Scheduler/Waits.antt =====
-- How long the broadcast loop of src/pool/scheduler.rs waits for a chain source.
use broadcast_pool.Prelude.{
  ℕ, suc, ◌+◌, ◌*◌, ◌^◌, min, Bool, true, false, List, [], ◌∷◌, ◌++◌, if◌then◌else◌, Result, ok,
  err, codes, contains, ◌≡◌, refl, sym, append-nil, append-append_one, ◌∙◌, ap, arith, Bool-cases,
  inl, inr,
}
use native.Mathlib.Nat.{pow-suc}
use broadcast_pool.Platform.{Platform}
use broadcast_pool.Pool.{Backends, PoolManager}
use broadcast_pool.Pool.Broadcast.{no_chain_source}
use broadcast_pool.Pool.Tick.{run_scheduler_tick}
use broadcast_pool.Scheduler.{
  BroadcastLoop, started, after_tick, broadcast_round, run_broadcast_loop,
}

-- What a round comes to: a tick that succeeds, a tick that finds no chain source, or neither (the halt,
-- a panic, another error).
pub data Round : Type 0 where
  served : Round
  sourceless : Round
  idle : Round

abbrev reported : {A : Type 0} → Result A → Round
reported (ok a) = served
reported (err e) = if contains (codes no_chain_source) (codes e) then sourceless else idle

module _ ⦃p : Platform⦄ ⦃b : Backends⦄ where
  abbrev round_of : Bool → PoolManager → Round
  round_of joined s =
      if s.safe_mode then idle else if joined then reported (run_scheduler_tick s).0 else idle

  abbrev next_of : PoolManager → PoolManager
  next_of s = if s.safe_mode then s else (run_scheduler_tick s).1

  -- The rounds from a state of the pool on; the tick runs unless the pool has halted.
  unfoldable pub rounds_of : List Bool → PoolManager → List Round
  rounds_of [] s = []
  rounds_of (joined ∷ rest) s = round_of joined s ∷ rounds_of rest (next_of s)

-- The waits when `k` ticks in a row, idle rounds aside, have found no chain source.
abbrev pub backoffs : ℕ → List Round → List ℕ
backoffs k [] = []
backoffs k (served ∷ rs) = backoffs 0 rs
backoffs k (sourceless ∷ rs) = min (2 ^ k) 60 ∷ backoffs (k + 1) rs
backoffs k (idle ∷ rs) = backoffs k rs

double : (n : ℕ) → min (min n 60 * 2) 60 ≡ min (n * 2) 60
double n = omega arith

twice : (k : ℕ) → 2 ^ k * 2 ≡ 2 ^ (k + 1)
twice k =
    let next : k + 1 ≡ suc k = omega arith in
    let same : 2 ^ (k + 1) ≡ 2 ^ suc k = ap (λ n. 2 ^ n) next in omega (arith, pow-suc 2 k, same)

-- What a round leaves: the pool, the failed ticks that its backoff stands for, and the waits.
abbrev Carries : ℕ → BroadcastLoop → Round → PoolManager → BroadcastLoop → Type 0
Carries k l r s m =
    (m.manager ≡ s)
    × ((k' : ℕ) × ((m.backoff ≡ min (2 ^ k') 60)
          × ((rs : List Round) → m.waits ++ backoffs k' rs ≡ l.waits ++ backoffs k (r ∷ rs))))

after_tick-Carries :
    {A : Type 0} (r : Result A) (k : ℕ) (l : BroadcastLoop)
    → l.backoff ≡ min (2 ^ k) 60
    → Carries k l (reported r) l.manager (after_tick r l)
unfolding after_tick
after_tick-Carries (ok a) k l h = (refl, (0, (refl, λ rs. refl)))
after_tick-Carries (err e) k l h = elim (Bool-cases (contains (codes no_chain_source) (codes e))) [
  | inl none_left ↦ rw none_left (
    refl,
    (
      k + 1,
      (
        ap (λ n. min (n * 2) 60) h ∙ double (2 ^ k) ∙ ap (λ n. min n 60) (twice k),
        λ rs.
            append-append_one l.waits l.backoff (backoffs (k + 1) rs)
            ∙ ap (λ w. l.waits ++ w ∷ backoffs (k + 1) rs) h,
      ),
    ),
  )
  | inr other ↦ rw other (refl, (k, (h, λ rs. refl)))
]

either_way :
    (safe joined : Bool) (k : ℕ) (l : BroadcastLoop) (r : Round) (s : PoolManager)
    (m n : BroadcastLoop)
    → Carries k l idle l.manager l
    → Carries k l r s m
    → Carries k l idle s n
    → Carries k l
        (if safe then idle else if joined then r else idle)
        (if safe then l.manager else s)
        (if safe then l else if joined then m else n)
either_way true joined k l r s m n halted ended panicked = halted
either_way false true k l r s m n halted ended panicked = ended
either_way false false k l r s m n halted ended panicked = panicked

module _ ⦃p : Platform⦄ ⦃b : Backends⦄ where
  round-Carries :
      (joined : Bool) (k : ℕ) (l : BroadcastLoop)
      → l.backoff ≡ min (2 ^ k) 60
      → Carries k l (round_of joined l.manager) (next_of l.manager) (broadcast_round joined l)
  unfolding broadcast_round
  round-Carries joined k l h =
      let (r, s) = run_scheduler_tick l.manager in
      let next : BroadcastLoop = record l { manager = s } in
      either_way l.manager.safe_mode joined k l (reported r) s (after_tick r next) next
        (refl, (k, (h, λ rs. refl))) (after_tick-Carries r k next h) (refl, (k, (h, λ rs. refl)))

  loop-waits :
      (rounds : List Bool) (k : ℕ) (l : BroadcastLoop)
      → l.backoff ≡ min (2 ^ k) 60
      → (run_broadcast_loop rounds l).waits ≡ l.waits ++ backoffs k (rounds_of rounds l.manager)
  unfolding run_broadcast_loop rounds_of
  loop-waits [] k l h = sym (append-nil l.waits)
  loop-waits (joined ∷ rest) k l h =
      let (same, (k', (paced, told))) = round-Carries joined k l h in
      loop-waits rest k' (broadcast_round joined l) paced
      ∙ ap (λ s. (broadcast_round joined l).waits ++ backoffs k' (rounds_of rest s)) same
      ∙ told (rounds_of rest (next_of l.manager))

  -- From the start of the loop, the waits for a chain source are those of its rounds: a tick that
  -- finds no chain source is followed by a wait of 2^k seconds, at most a minute, where k such
  -- ticks have come since the last tick that succeeded; a round of any other kind (a success, the
  -- halt, a panic, another error) is followed by none.
  pub run_broadcast_loop-waits :
      (rounds : List Bool) (s : PoolManager)
      → (run_broadcast_loop rounds (started s)).waits ≡ backoffs 0 (rounds_of rounds s)
  run_broadcast_loop-waits rounds s = loop-waits rounds 0 (started s) refl
