-- ===== src/Pool/Safe.antt =====
-- Safe mode and the channels of src/pool/manager.rs: the global halt after a tampered row, the chain
-- tip cache and the scripthashes that wallets watch.
use broadcast_pool.Prelude.{
  ℕ, String, Bool, true, false, ◌||◌, Option, none, some, List, [], ◌∷◌, ◌++◌, str_eq, ◌==◌,
  if◌then◌else◌,
}
use broadcast_pool.Pool.{PoolManager}

unfoldable pub contains_text : List String → String → Bool
contains_text [] s = false
contains_text (x ∷ xs) s = str_eq x s || contains_text xs s

unfoldable pub enter_safe_mode : String → PoolManager → PoolManager
enter_safe_mode id s = record s {
  safe_mode = true;
  tampered_ids =
      if contains_text s.tampered_ids id then s.tampered_ids else s.tampered_ids ++ id ∷ [];
}

unfoldable pub clear_safe_mode : PoolManager → PoolManager
clear_safe_mode s = record s { safe_mode = false; tampered_ids = [] }

-- A set without order: a scripthash that is there is not put in again.
unfoldable pub watch_scripthash : String → PoolManager → PoolManager
watch_scripthash scripthash s =
    if str_eq scripthash ""
    then s
    else if contains_text s.watched_scripthashes scripthash
    then s
    else record s { watched_scripthashes = s.watched_scripthashes ++ scripthash ∷ [] }

unfoldable pub announce_scripthash_change : String → PoolManager → PoolManager
announce_scripthash_change scripthash s = record s {
  scripthash_notifications = s.scripthash_notifications ++ scripthash ∷ [];
}

abbrev height_is : Option (ℕ × String) → ℕ → Bool
height_is none height = false
height_is (some (h, _)) height = h == height

-- Subscribers hear of a tip whose height differs from the cached one.
unfoldable pub cache_chain_tip : ℕ → String → PoolManager → PoolManager
cache_chain_tip height hex s =
    if (height == 0) || str_eq hex ""
    then s
    else if height_is s.cached_chain_tip height
    then record s { cached_chain_tip = some (height, hex) }
    else record s {
      cached_chain_tip = some (height, hex);
      chain_tip_notifications = s.chain_tip_notifications ++ (height, hex) ∷ [];
    }
