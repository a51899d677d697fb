-- ===== src/Examples/Prices.antt =====
-- The price feed at a concrete input: a provider that has one currency only, and one that has both.
use broadcast_pool.Prelude.{
  ◌≤◌, ◌≡◌, refl, true, false, All, str_eq, some, none, [], ◌∷◌, ok, err, arith,
}
use broadcast_pool.PriceFeed.{
  size, PriceFeed, PriceSnapshot, Answers, fetch_snapshot, cached_snapshot, fetch_fresh,
  fresh_snapshot,
}
use broadcast_pool.PriceFeed.Freshness.{Sound, Origin, fetch_snapshot-Origin}
use broadcast_pool.Db.{Row, find, map_broadcast_row}
use broadcast_pool.Pool.{PoolManager}
use broadcast_pool.Pool.Schedule.{price_due, check_price_triggers}
use broadcast_pool.Pool.Schedule.Triggers.{awaits, check_price_triggers-other}
use broadcast_pool.Examples.Toy.{toy}
use broadcast_pool.Examples.World.{key, bare, db, steady, manager}

abbrev empty_feed : PriceFeed
empty_feed = record { has_cmc_api_key = true; cache = none; lkg = none }

abbrev answers : Answers
answers = record {
  kraken = ok (("usd", 5) ∷ []);
  coingecko = ok (("eur", 4) ∷ ("usd", 5) ∷ []);
  bitstamp = err "down";
  coinmarketcap = err "down";
  now = 20;
}

abbrev quote : PriceSnapshot
quote = fresh_snapshot (("eur", 4) ∷ ("usd", 5) ∷ []) "coingecko" 20

answered : (fetch_snapshot 10 30 answers empty_feed).0 ≡ ok quote
unfolding fetch_snapshot cached_snapshot fetch_fresh size
answered = refl

prices_example :
    (2 ≤ size quote.prices)
    × (Origin 10 30 answers empty_feed quote × Sound (fetch_snapshot 10 30 answers empty_feed).1)
unfolding fresh_snapshot size
prices_example =
    fetch_snapshot-Origin 10 30 answers empty_feed quote (record { cache = tt; lkg = tt }) answered

-- One row whose price is due, and one that waits for a time.
waiting_row : Row
waiting_row = record (bare "p" "ee" 0) {
  status = "pending";
  scheduled_time = none;
  schedule_trigger = some "price";
  target_price = some 5;
}

priced_pool : PoolManager
unfolding waiting_row
priced_pool = record manager { db = record db { pool = waiting_row ∷ bare "q" "ff" 0 ∷ [] } }

others :
    All
      (λ r.
        awaits "main" r ≡ true
        → price_due (("usd", 6) ∷ []) (map_broadcast_row 5 key r) ≡ true
        → str_eq r.id "q" ≡ false)
      priced_pool.db.pool
unfolding priced_pool waiting_row
others = ((λ _ _. refl), ((λ waits _. absurd (ground arith)), tt))

trigger_example :
    find "q" (check_price_triggers (("usd", 6) ∷ []) priced_pool).1.db.pool
    ≡ find "q" priced_pool.db.pool
unfolding priced_pool
trigger_example = check_price_triggers-other (("usd", 6) ∷ []) "q" priced_pool others
