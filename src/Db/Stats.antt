-- ===== src/Db/Stats.antt =====
-- `get_pool_stats` of src/db/mod.rs: `GROUP BY status`, then one counter for each known status.
pub mod Counts
use broadcast_pool.Prelude.{
  ℕ, String, ◌+◌, List, [], ◌∷◌, str_eq, if◌then◌else◌, select, Exec, gets,
}
use broadcast_pool.Platform.{Platform}
use broadcast_pool.Models.{PoolStats}
use broadcast_pool.Db.{Row, Database}

pub record Group : Type 0 where
  pub status : String
  pub count : ℕ
  pub values : List ℕ

-- Counts one row into its group, opening a group for a new status.
unfoldable pub add_to_group : Row → List Group → List Group
add_to_group r [] = record { status = r.status; count = 1; values = r.total_value_btc ∷ [] } ∷ []
add_to_group r (g ∷ gs) =
    if str_eq g.status r.status
    then record g { count = g.count + 1; values = r.total_value_btc ∷ g.values } ∷ gs
    else g ∷ add_to_group r gs

unfoldable pub group_by_status : List Row → List Group
unfolding add_to_group
group_by_status [] = []
group_by_status (r ∷ rs) = add_to_group r (group_by_status rs)

abbrev pub no_stats : PoolStats
no_stats = record {
  total_transactions = 0;
  pending = 0;
  scheduled = 0;
  broadcast = 0;
  confirmed = 0;
  failed = 0;
  total_value_btc = 0;
}

module _ ⦃p : Platform⦄ where
  -- A failed transaction counts, its value does not. The order of the groups, which SQL leaves open, is
  -- that of their last rows.
  unfoldable pub add_group : PoolStats → Group → PoolStats
  add_group s g =
      let t : PoolStats = record s {
        total_transactions = s.total_transactions + g.count;
        total_value_btc =
            if str_eq g.status "failed"
            then s.total_value_btc
            else p.add_f64 s.total_value_btc (p.sum_f64 g.values);
      } in
      if str_eq g.status "pending"
      then record t { pending = g.count }
      else if str_eq g.status "scheduled"
      then record t { scheduled = g.count }
      else if str_eq g.status "broadcast"
      then record t { broadcast = g.count }
      else if str_eq g.status "confirmed"
      then record t { confirmed = g.count }
      else if str_eq g.status "failed"
      then record t { failed = g.count }
      else t

  unfoldable pub add_groups : PoolStats → List Group → PoolStats
  unfolding add_group
  add_groups s [] = s
  add_groups s (g ∷ gs) = add_groups (add_group s g) gs

  unfoldable pub get_pool_stats : String → Exec Database PoolStats
  get_pool_stats network =
      gets (λ db.
        add_groups no_stats (group_by_status (select (λ r. str_eq r.network network) db.pool)))
