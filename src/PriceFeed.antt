-- ===== src/PriceFeed.antt =====
-- src/price/mod.rs: the price of a bitcoin, from four providers in turn, with a cache and the last known
-- good price. A provider's answer is an argument; times are nanoseconds.
pub mod Freshness
use broadcast_pool.Prelude.{
  ℕ, ◌-◌, ◌*◌, ◌/◌, String, Bool, true, false, Option, none, some, List, [], ◌∷◌, str_eq, ◌||◌, ◌+◌,
  if◌then◌else◌, ltb, leb, Result, ok, err,
}
use mathlib.Core.Option
use broadcast_pool.Models.{second}

-- A hash map as the list of its entries; of two for a currency the first counts.
abbrev pub Prices : Type 0
Prices = List (String × ℕ)

abbrev pub has_currency : String → Prices → Bool
has_currency c [] = false
has_currency c ((d, _) ∷ ps) = str_eq d c || has_currency c ps

-- `HashMap::len`: the number of currencies.
unfoldable pub size : Prices → ℕ
size [] = 0
size ((c, _) ∷ ps) = let rest = size ps in if has_currency c ps then rest else rest + 1

pub record PriceSnapshot : Type 0 where
  pub prices : Prices
  pub source : String
  pub stale : Bool
  pub fetched_at : ℕ

pub record CachedEntry : Type 0 where
  pub snapshot : PriceSnapshot
  pub cached_at : ℕ

pub record PriceFeed : Type 0 where
  pub has_cmc_api_key : Bool
  pub cache : Option CachedEntry
  pub lkg : Option PriceSnapshot

-- The answers of the providers, and the time at which the snapshot is made.
pub record Answers : Type 0 where
  pub kraken : Result Prices
  pub coingecko : Result Prices
  pub bitstamp : Result Prices
  pub coinmarketcap : Result Prices
  pub now : ℕ

abbrev pub cache_ttl : ℕ
cache_ttl = 60 * second

abbrev pub lkg_max_age_secs : ℕ
lkg_max_age_secs = 600

unfoldable pub fresh_snapshot : Prices → String → ℕ → PriceSnapshot
fresh_snapshot prices source now = record {
  prices = prices;
  source = source;
  stale = false;
  fetched_at = now;
}

-- A provider serves when it quotes both currencies.
abbrev pub complete : Result Prices → Option Prices
complete (ok prices) = if leb 2 (size prices) then some prices else none
complete (err _) = none

abbrev pub or_next : Option Prices → String → ℕ → Result PriceSnapshot → Result PriceSnapshot
or_next none source now next = next
or_next (some prices) source now next = ok (fresh_snapshot prices source now)

-- The text of the error lists what each provider said; it is left short here.
unfoldable pub fetch_fresh : Answers → PriceFeed → Result PriceSnapshot
unfolding fresh_snapshot size
fetch_fresh a f = or_next (complete a.kraken) "kraken" a.now (
    or_next (complete a.coingecko) "coingecko" a.now (
      or_next (complete a.bitstamp) "bitstamp" a.now (
        or_next (if f.has_cmc_api_key then complete a.coinmarketcap else none) "coinmarketcap" a.now
          (err "no provider has complete prices"))))

unfoldable pub lkg_snapshot : ℕ → PriceFeed → Result PriceSnapshot
lkg_snapshot now f = elim f.lkg [
  | none ↦ err "No cached BTC price available"
  | some lkg ↦
      if ltb lkg_max_age_secs ((now - lkg.fetched_at) / second)
      then err "Cached BTC price too old"
      else ok (record lkg { stale = true })
]

-- The cached snapshot while it is younger than a minute.
unfoldable pub cached_snapshot : ℕ → PriceFeed → Option PriceSnapshot
cached_snapshot now f = elim f.cache [
  | none ↦ none
  | some entry ↦ if ltb (now - entry.cached_at) cache_ttl then some entry.snapshot else none
]

abbrev keep : ℕ → Result PriceSnapshot → PriceFeed → Result PriceSnapshot × PriceFeed
keep cached_at (ok snapshot) f = (
  ok snapshot,
  record f {
    cache = some (record { snapshot = snapshot; cached_at = cached_at });
    lkg = some snapshot;
  },
)
keep cached_at (err _) f = (lkg_snapshot cached_at f, f)

-- `now` is the time of the call, `done` the time when the providers have answered.
unfoldable pub fetch_snapshot : ℕ → ℕ → Answers → PriceFeed → Result PriceSnapshot × PriceFeed
fetch_snapshot now done a f = elim (cached_snapshot now f) [
  | some snapshot ↦ (ok snapshot, f)
  | none ↦ keep done (fetch_fresh a f) f
]

unfoldable pub cached_prices : PriceFeed → Option Prices
cached_prices f = Option.map (λ entry. entry.snapshot.prices) f.cache
