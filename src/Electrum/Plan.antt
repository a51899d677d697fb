-- ===== src/Electrum/Plan.antt =====
-- src/electrum_server/mod.rs: how a transaction that a wallet hands in is to be scheduled.
pub mod Final
use broadcast_pool.Prelude.{
  ℕ, ◌+◌, ◌*◌, max, String, Bool, true, false, ◌&&◌, Option, none, some, if◌then◌else◌, str_eq, ltb,
  leb, ◌==◌, or_else,
}
use mathlib.Core.Option
use broadcast_pool.Platform.{Platform}
use broadcast_pool.Models.{second}
use broadcast_pool.Pool.{BroadcastMode, immediate, scheduled, by_block, manual, Config}

-- The mode, and the time that goes with it.
abbrev pub Plan : Type 0
Plan = BroadcastMode × Option ℕ

-- `Display for BroadcastMode`
abbrev pub mode_text : BroadcastMode → String
mode_text immediate = "immediate"
mode_text scheduled = "scheduled"
mode_text by_block = "by_block"
mode_text manual = "manual"

-- What chrono and rand do: the clock, `NaiveDateTime::parse_from_str` with `%Y-%m-%dT%H:%M` as UTC,
-- and the number that `gen_range(min..=max)` draws.
pub record Draw : Type 0 where
  pub now : ℕ
  pub parse_naive : String → Option ℕ
  pub gen_range : ℕ → ℕ → ℕ

abbrev pub hour : ℕ
hour = 3600 * second

module _ ⦃p : Platform⦄ where
  -- A delay that leaves chrono's calendar is not modelled.
  abbrev pub drawn : Draw → Config → ℕ
  drawn d config =
      d.now
      + d.gen_range config.min_delay_hours (max config.max_delay_hours config.min_delay_hours)
        * hour

  abbrev pub configured : Draw → Config → Option ℕ
  configured d config = elim config.scheduled_datetime [
    | none ↦ none
    | some dt_str ↦ or_else (p.parse_rfc3339 dt_str) (d.parse_naive dt_str)
  ]

  -- Without a block height the last but one mode logs a warning, no more.
  unfoldable pub resolve_broadcast_plan : Draw → ℕ → Config → Plan
  resolve_broadcast_plan d nlocktime config = elim config.broadcast_mode [
    | immediate ↦ (immediate, some d.now)
    | scheduled ↦ (scheduled, or_else (configured d config) (some (drawn d config)))
    | by_block ↦ (by_block, none)
    | manual ↦ (manual, none)
  ]

  -- A block height that is not above the tip is final.
  abbrev pub block_plan : Draw → ℕ → Option ℕ → Plan
  block_plan d nlocktime none = (by_block, none)
  block_plan d nlocktime (some tip) =
      if leb nlocktime tip then (immediate, some d.now) else (by_block, none)

  unfoldable pub resolve_ingest_plan : Draw → String → ℕ → Config → Option ℕ → Plan
  unfolding resolve_broadcast_plan
  resolve_ingest_plan d source_label nlocktime config chain_height =
      if str_eq source_label "liana"
      then if config.liana_virtual_block.enabled then (by_block, none) else (manual, none)
      else if str_eq source_label "sparrow" && (nlocktime == 0)
      then (manual, none)
      else if ltb 500_000_000 nlocktime
      then (scheduled, some (nlocktime * second))
      else if ltb 0 nlocktime && ltb nlocktime 500_000_000
      then block_plan d nlocktime chain_height
      else resolve_broadcast_plan d nlocktime config
