-- ===== src/Models.antt =====
-- src/db/models.rs: the rows as the program sees them after decoding.
-- An `f64` is a natural number of units of 2^-52, so `f64::EPSILON` is one unit: negative values and
-- NaN are not represented, and a fraction below one unit is not either.
-- A `DateTime<Utc>` is the number of nanoseconds since 1970.
use broadcast_pool.Prelude.{ℕ, ◌^◌, String, Bool, Option, str_eq, if◌then◌else◌, ◌≡◌, refl}

-- The value 1.0, and one second.
abbrev pub one : ℕ
one = 2 ^ 52

abbrev pub second : ℕ
second = 1_000_000_000

pub data TxStatus : Type 0 where
  pending scheduled broadcast confirmed expired failed : TxStatus

pub TxStatus-discrete : Discrete TxStatus
TxStatus-discrete = hlevel

abbrev pub as_str : TxStatus → String
as_str pending = "pending"
as_str scheduled = "scheduled"
as_str broadcast = "broadcast"
as_str confirmed = "confirmed"
as_str expired = "expired"
as_str failed = "failed"

unfoldable pub from_str : String → TxStatus
from_str s =
    if str_eq s "pending"
    then pending
    else if str_eq s "scheduled"
    then scheduled
    else if str_eq s "broadcast"
    then broadcast
    else if str_eq s "confirmed"
    then confirmed
    else if str_eq s "expired"
    then expired
    else if str_eq s "failed"
    then failed
    else pending

-- Reading back a status that `as_str` wrote gives that status.
pub from_str-as_str : (t : TxStatus) → from_str (as_str t) ≡ t
unfolding from_str
from_str-as_str pending = refl
from_str-as_str scheduled = refl
from_str-as_str broadcast = refl
from_str-as_str confirmed = refl
from_str-as_str expired = refl
from_str-as_str failed = refl

-- `matches!(status, TxStatus::Pending | TxStatus::Scheduled)`
abbrev pub is_waiting : TxStatus → Bool
is_waiting pending = Bool.true
is_waiting scheduled = Bool.true
is_waiting _ = Bool.false

-- `matches!(status, TxStatus::Broadcast | TxStatus::Confirmed)`
abbrev pub is_emitted : TxStatus → Bool
is_emitted broadcast = Bool.true
is_emitted confirmed = Bool.true
is_emitted _ = Bool.false

-- The columns of a row, decoded.
pub record BroadcastTx : Type 0 where
  pub id : String
  pub tx_hex : String
  pub txid : Option String
  pub status : TxStatus
  pub network : String
  pub nlocktime : Option ℕ
  pub broadcast_mode : Option String
  pub scheduled_time : Option ℕ
  pub broadcast_at : Option ℕ
  pub confirmed_at : Option ℕ
  pub block_height : Option ℕ
  pub target_fee_rate : Option ℕ
  pub actual_fee_rate : Option ℕ
  pub source_label : Option String
  pub destination_address : Option String
  pub utxo_count : ℕ
  pub total_value_btc : ℕ
  pub replacement_of : Option String
  pub error_message : Option String
  pub retry_count : ℕ
  pub broadcast_missed_at : Option ℕ
  pub original_scheduled_time : Option ℕ
  pub defer_until : Option ℕ
  pub schedule_trigger : Option String
  pub target_price : Option ℕ
  pub price_currency : Option String
  pub price_condition : Option String
  pub created_at : ℕ
  pub updated_at : ℕ
  pub locktime_waiting : Option Bool
  pub locktime_deferred : Option Bool
  pub can_reschedule : Option Bool
  pub chain_mtp : Option ℕ
  pub locktime_target : Option ℕ
  pub locktime_remaining_secs : Option ℕ
  pub locktime_kind : Option String
  pub locktime_remaining_blocks : Option ℕ
  pub locktime_satisfied : Option Bool
  pub current_btc_price : Option ℕ
  pub tampered : Option Bool

pub record NewBroadcastTx : Type 0 where
  pub tx_hex : String
  pub network : String
  pub nlocktime : Option ℕ
  pub broadcast_mode : Option String
  pub scheduled_time : Option ℕ
  pub target_fee_rate : Option ℕ
  pub source_label : Option String
  pub destination_address : Option String
  pub utxo_count : Option ℕ
  pub total_value_btc : Option ℕ
  pub replacement_of : Option String

pub record PoolStats : Type 0 where
  pub total_transactions : ℕ
  pub pending : ℕ
  pub scheduled : ℕ
  pub broadcast : ℕ
  pub confirmed : ℕ
  pub failed : ℕ
  pub total_value_btc : ℕ
