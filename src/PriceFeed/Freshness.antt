-- ===== src/PriceFeed/Freshness.antt =====
-- How old a price of src/price/mod.rs can be.
use broadcast_pool.Prelude.{
  ℕ, ◌+◌, ◌-◌, ◌/◌, ◌≤◌, ◌<◌, ◌≡◌, refl, ap, ◌∙◌, subst, true, false, Option, none, some, String,
  Bool, List, [], ◌∷◌, if◌then◌else◌, leb, Bool-cases, inl, inr, Result, ok, err, arith,
}
use broadcast_pool.Models.{second}
use broadcast_pool.PriceFeed.{
  Prices, size, complete, or_next, PriceSnapshot, CachedEntry, PriceFeed, Answers, cache_ttl,
  fresh_snapshot, fetch_fresh, lkg_snapshot, cached_snapshot, fetch_snapshot, lkg_max_age_secs,
}

-- A snapshot of both currencies that a provider gave.
pub record Good (s : PriceSnapshot) : Type 0 where
  pub complete : 2 ≤ size s.prices
  pub fresh : s.stale ≡ false

abbrev GoodEntry : Option CachedEntry → Type 0
GoodEntry none = Unit
GoodEntry (some e) = Good e.snapshot

abbrev GoodLast : Option PriceSnapshot → Type 0
GoodLast none = Unit
GoodLast (some s) = Good s

-- What the feed keeps are such snapshots.
pub record Sound (f : PriceFeed) : Type 0 where
  pub cache : GoodEntry f.cache
  pub lkg : GoodLast f.lkg

-- The providers in the order in which they are asked.
abbrev pub providers : Answers → PriceFeed → List (String × Result Prices)
providers a f =
    ("kraken", a.kraken)
    ∷ ("coingecko", a.coingecko)
    ∷ ("bitstamp", a.bitstamp)
    ∷ (if f.has_cmc_api_key then ("coinmarketcap", a.coinmarketcap) ∷ [] else [])

abbrev Incomplete : Result Prices → Type 0
Incomplete (ok prices) = size prices < 2
Incomplete (err _) = Unit

-- The first of these answers that quotes two currencies.
pub data First (source : String) (prices : Prices) : List (String × Result Prices) → Type 0 where
  here :
      (ps : List (String × Result Prices))
      → 2 ≤ size prices
      → First source prices ((source, ok prices) ∷ ps)
  later :
      (name : String) (r : Result Prices) (ps : List (String × Result Prices))
      → Incomplete r
      → First source prices ps
      → First source prices ((name, r) ∷ ps)

-- Where a snapshot comes from, and how old it can be.
pub data Origin (now done : ℕ) (a : Answers) (f : PriceFeed) (s : PriceSnapshot) : Type 0 where
  from_cache :
      (e : CachedEntry)
      → f.cache ≡ some e
      → s ≡ e.snapshot
      → now < e.cached_at + cache_ttl
      → s.stale ≡ false
      → Origin now done a f s
  from_provider :
      First s.source s.prices (providers a f)
      → s.fetched_at ≡ a.now
      → s.stale ≡ false
      → Origin now done a f s
  from_last :
      (l : PriceSnapshot)
      → f.lkg ≡ some l
      → s.prices ≡ l.prices
      → (done - l.fetched_at) / second ≤ lkg_max_age_secs
      → s.stale ≡ true
      → Origin now done a f s

-- A fresh snapshot of the first complete answer.
abbrev Given : ℕ → List (String × Result Prices) → PriceSnapshot → Type 0
Given now ps s = First s.source s.prices ps × ((s.stale ≡ false) × (s.fetched_at ≡ now))

or_next-Given :
    (name : String) (r : Result Prices) (ps : List (String × Result Prices)) (now : ℕ)
    (next : Result PriceSnapshot) (s : PriceSnapshot)
    → (next ≡ ok s → Given now ps s)
    → or_next (complete r) name now next ≡ ok s
    → Given now ((name, r) ∷ ps) s
unfolding fresh_snapshot
or_next-Given name (err x) ps now next s go e =
    let (first, rest) = go e in (later name (err x) ps tt first, rest)
or_next-Given name (ok prices) ps now next s go e = elim (Bool-cases (leb 2 (size prices))) [
  | inl full ↦
      let same : fresh_snapshot prices name now ≡ s = ground (arith, e, full) in
      subst (Given now ((name, ok prices) ∷ ps)) same (here ps (ground (arith, full)), (refl, refl))
  | inr part ↦
      let (first, rest) = go (rw part at e) in
      (later name (ok prices) ps (ground (arith, part)) first, rest)
]

-- The last provider is asked only with a key.
last-Given :
    (has : Bool) (r : Result Prices) (now : ℕ) (error : String) (s : PriceSnapshot)
    → or_next (if has then complete r else none) "coinmarketcap" now (err error) ≡ ok s
    → Given now (if has then ("coinmarketcap", r) ∷ [] else []) s
last-Given true r now error s e =
    or_next-Given "coinmarketcap" r [] now (err error) s (λ f. absurd (ground (arith, f))) e
last-Given false r now error s e = absurd (ground (arith, e))

First-size :
    (source : String) (prices : Prices) (ps : List (String × Result Prices))
    → First source prices ps
    → 2 ≤ size prices
First-size source prices ps (here qs big) = big
First-size source prices ps (later name r qs h first) = First-size source prices qs first

fetch_fresh-Given :
    (a : Answers) (f : PriceFeed) (s : PriceSnapshot)
    → fetch_fresh a f ≡ ok s
    → Given a.now (providers a f) s
unfolding fetch_fresh
fetch_fresh-Given a f s = or_next-Given "kraken" a.kraken _ a.now _ s (
    or_next-Given "coingecko" a.coingecko _ a.now _ s (
      or_next-Given "bitstamp" a.bitstamp _ a.now _ s
        (last-Given f.has_cmc_api_key a.coinmarketcap a.now "no provider has complete prices" s)))

module _ (now done : ℕ) (a : Answers) where
  from_entry :
      (f : PriceFeed) (s : PriceSnapshot) (c : Option CachedEntry)
      → f.cache ≡ c
      → GoodEntry c
      → cached_snapshot now f ≡ some s
      → (2 ≤ size s.prices) × Origin now done a f s
  unfolding cached_snapshot
  from_entry f s none e good h = absurd (ground (arith, e))
  from_entry f s (some c) e good h =
      let same : s ≡ c.snapshot = ground (arith, e) in
      (
        ground (arith, same, good.complete),
        from_cache c e same (ground (arith, e)) (ground (arith, same, good.fresh)),
      )

  from_lkg :
      (f : PriceFeed) (s : PriceSnapshot) (l : Option PriceSnapshot)
      → f.lkg ≡ l
      → GoodLast l
      → lkg_snapshot done f ≡ ok s
      → (2 ≤ size s.prices) × Origin now done a f s
  unfolding lkg_snapshot
  from_lkg f s none e good h = absurd (ground (arith, e))
  from_lkg f s (some l) e good h =
      let same : s.prices ≡ l.prices = ground (arith, e) in
      (
        ground (arith, same, good.complete),
        from_last l e same (ground (arith, e)) (ground (arith, e)),
      )

  by_cache :
      (f : PriceFeed) (s : PriceSnapshot)
      → Sound f
      → (fetch_snapshot now done a f).0 ≡ ok s
      → (c : Option PriceSnapshot) → cached_snapshot now f ≡ c
      → (r : Result PriceSnapshot) → fetch_fresh a f ≡ r
      → (2 ≤ size s.prices) × (Origin now done a f s × Sound (fetch_snapshot now done a f).1)
  unfolding fetch_snapshot
  by_cache f s sound h (some c) e r fetched =
      let (both, origin) = from_entry f s f.cache refl sound.cache (ground (arith, e)) in
      let kept : f ≡ (fetch_snapshot now done a f).1 = ground (arith, e) in
      (both, (origin, subst Sound kept sound))
  by_cache f s sound h none e (ok t) fetched =
      let same : t ≡ s = ground (arith, e, fetched) in
      let (first, good) = fetch_fresh-Given a f s (fetched ∙ ap ok same) in
      let both = First-size s.source s.prices (providers a f) first in
      let next : PriceFeed = record f {
        cache = some (record { snapshot = s; cached_at = done });
        lkg = some s;
      } in
      let kept : next ≡ (fetch_snapshot now done a f).1 = ground (arith, e, fetched, same) in
      let whole : Good s = record { complete = both; fresh = good.0 } in
      (
        both,
        (
          from_provider first good.1 good.0,
          subst Sound kept (record { cache = whole; lkg = whole }),
        ),
      )
  by_cache f s sound h none e (err x) fetched =
      let (both, origin) = from_lkg f s f.lkg refl sound.lkg (ground (arith, e, fetched)) in
      let kept : f ≡ (fetch_snapshot now done a f).1 = ground (arith, e, fetched) in
      (both, (origin, subst Sound kept sound))

  -- When the feed keeps snapshots that quote two currencies and are not stale, each snapshot that a
  -- fetch gives quotes two currencies, and either comes from the cache, filled less than a minute
  -- ago; or has the prices and the name of the first provider in their order whose answer quotes
  -- two currencies, of those that have just been asked; or has the prices of the last good
  -- snapshot, which is then at most 600 whole seconds old, and is marked stale as no other is. The
  -- feed keeps snapshots of that kind.
  pub fetch_snapshot-Origin :
      (f : PriceFeed) (s : PriceSnapshot)
      → Sound f
      → (fetch_snapshot now done a f).0 ≡ ok s
      → (2 ≤ size s.prices) × (Origin now done a f s × Sound (fetch_snapshot now done a f).1)
  fetch_snapshot-Origin f s sound h =
      by_cache f s sound h (cached_snapshot now f) refl (fetch_fresh a f) refl
