-- ===== src/Electrum/Plan/Final.antt =====
-- When the plan of src/electrum_server/mod.rs sends at once, and when it sends after a delay.
use broadcast_pool.Prelude.{
  ℕ, ◌≤◌, ◌<◌, String, true, false, ◌&&◌, Option, none, some, str_eq, ltb, ◌≡◌, ◌⊎◌, inl, inr, refl,
  Bool-cases, arith,
}
use broadcast_pool.Platform.{Platform}
use broadcast_pool.Pool.{immediate, Config}
use broadcast_pool.Electrum.Plan.{Draw, resolve_ingest_plan, resolve_broadcast_plan, block_plan}

-- The three ways to be sent at once: a block height that the known tip has reached, or the
-- configuration's wish for a transaction that is not locked, or is locked to the number 500,000,000.
abbrev pub SentAtOnce : String → ℕ → Config → Option ℕ → Type 0
SentAtOnce source nlocktime config height =
    ((tip : ℕ) × ((height ≡ some tip) × ((0 < nlocktime) × (nlocktime ≤ tip))))
    ⊎ ((config.broadcast_mode ≡ immediate)
        × (((nlocktime ≡ 0) × (str_eq source "sparrow" ≡ false)) ⊎ (nlocktime ≡ 500_000_000)))

module _ ⦃p : Platform⦄ where
  configured_mode :
      (d : Draw) (nlocktime : ℕ) (config : Config)
      → (resolve_broadcast_plan d nlocktime config).0 ≡ config.broadcast_mode
  unfolding resolve_broadcast_plan
  configured_mode d nlocktime config = ground arith

  block_immediate :
      (d : Draw) (nlocktime : ℕ) (height : Option ℕ)
      → (block_plan d nlocktime height).0 ≡ immediate
      → (tip : ℕ) × ((height ≡ some tip) × (nlocktime ≤ tip))
  block_immediate d nlocktime none e = ground arith
  block_immediate d nlocktime (some tip) e = (tip, (refl, ground arith))

  -- Only a transaction that is not Liana's is sent at once, and only in those ways.
  pub plan-SentAtOnce :
      (d : Draw) (source : String) (nlocktime : ℕ) (config : Config) (height : Option ℕ)
      → (resolve_ingest_plan d source nlocktime config height).0 ≡ immediate
      → (str_eq source "liana" ≡ false) × SentAtOnce source nlocktime config height
  unfolding resolve_ingest_plan
  plan-SentAtOnce d source nlocktime config height e = elim (Bool-cases (str_eq source "liana")) [
    | inl l ↦ absurd (ground arith)
    | inr l ↦ (l, elsewhere l (Bool-cases (ltb 0 nlocktime && ltb nlocktime 500_000_000)))
  ]
    where
      elsewhere :
          str_eq source "liana" ≡ false
          → (ltb 0 nlocktime && ltb nlocktime 500_000_000 ≡ true)
            ⊎ (ltb 0 nlocktime && ltb nlocktime 500_000_000 ≡ false)
          → SentAtOnce source nlocktime config height
      elsewhere l (inl b) =
          let (tip, (known, reached)) = block_immediate d nlocktime height (ground arith) in
          inl (tip, (known, (ground arith, reached)))
      elsewhere l (inr b) = inr (ground (arith, configured_mode d nlocktime config), ground arith)
