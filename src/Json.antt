-- ===== src/Json.antt =====
-- serde_json's `Value`, as src/electrum_server/mod.rs and src/pool/virtual_mempool.rs build and read
-- it. A `Map` is its entries in the order of the keys, each key once. The text of a value is code
-- outside the repository: `parse` and `print`.
use broadcast_pool.Prelude.{
  ℕ, zero, suc, ◌+◌, ◌^◌, String, Bool, true, false, ◌&&◌, Option, none, some, List, [], ◌∷◌,
  if◌then◌else◌, ltb, str_eq, show_nat, concat, not, ◌==◌, text_lt, ◌≡◌, refl,
}

pub data ℤ : Type 0 where
  pos negsuc : ℕ → ℤ

-- A number that fits `u64`, a negative one that fits `i64`, or the bits of an `f64`.
pub data Number : Type 0 where
  pos_int neg_int float : ℕ → Number

mutual
  pub data Value : Type 0 where
    null : Value
    bool : Bool → Value
    number : Number → Value
    string : String → Value
    array : Items → Value
    object : Fields → Value

  pub data Items : Type 0 where
    nil : Items
    cons : Value → Items → Items

  pub data Fields : Type 0 where
    end : Fields
    field : String → Value → Fields → Fields

-- `serde_json::from_str` and `to_vec`
pub record Serde : Type 0 where
  pub parse : String → Option Value
  pub print : Value → String

unfoldable pub to_list : Items → List Value
to_list nil = []
to_list (cons v vs) = v ∷ to_list vs

unfoldable pub from_list : List Value → Items
from_list [] = nil
from_list (v ∷ vs) = cons v (from_list vs)

unfoldable pub find_field : String → Fields → Option Value
find_field key end = none
find_field key (field k v fs) = if str_eq k key then some v else find_field key fs

-- `v.get("key")`
unfoldable pub get : String → Value → Option Value
unfolding find_field
get key (object fs) = find_field key fs
get key _ = none

unfoldable pub as_array : Value → Option (List Value)
unfolding to_list
as_array (array vs) = some (to_list vs)
as_array _ = none

unfoldable pub as_str : Value → Option String
as_str (string s) = some s
as_str _ = none

unfoldable pub as_u64 : Value → Option ℕ
as_u64 (number (pos_int n)) = some n
as_u64 _ = none

unfoldable pub as_i64 : Value → Option ℤ
as_i64 (number (pos_int n)) = if ltb n (2 ^ 63) then some (pos n) else none
as_i64 (number (neg_int n)) = some (negsuc n)
as_i64 _ = none

-- `v.first()`
unfoldable pub first : List Value → Option Value
first [] = none
first (v ∷ _) = some v

-- `v.get(index)` on an array
unfoldable pub nth : ℕ → List Value → Option Value
nth i [] = none
nth zero (v ∷ _) = some v
nth (suc i) (_ ∷ vs) = nth i vs

-- `and_then`
unfoldable pub and_then : {A B : Type 0} → Option A → (A → Option B) → Option B
and_then none f = none
and_then (some a) f = f a

-- `json!` on a `u64` and on an `i64`
abbrev pub from_u64 : ℕ → Value
from_u64 n = number (pos_int n)

abbrev pub from_i64 : ℤ → Value
from_i64 (pos n) = number (pos_int n)
from_i64 (negsuc n) = number (neg_int n)

-- `format!("{}", z)`
unfoldable pub show_int : ℤ → String
show_int (pos n) = show_nat n
show_int (negsuc n) = concat "-" (show_nat (n + 1))

-- Putting a list into an array and reading it back changes nothing.
pub to_list-from_list : (vs : List Value) → to_list (from_list vs) ≡ vs
unfolding to_list from_list
to_list-from_list [] = refl
to_list-from_list (v ∷ vs) = rw (to_list-from_list vs) refl

-- `msg["key"] = v` on an object whose keys are in order; on another value Rust panics, and here nothing
-- is done.
unfoldable pub put_field : String → Value → Fields → Fields
put_field key v end = field key v end
put_field key v (field k old fs) =
    let later = field k old (put_field key v fs) in
    if str_eq k key
    then field key v fs
    else if text_lt key k
    then field key v (field k old fs)
    else later

unfoldable pub set : String → Value → Value → Value
unfolding put_field
set key v (object fs) = object (put_field key v fs)
set key v other = other

same_number : Number → Number → Bool
same_number (pos_int a) (pos_int b) = a == b
same_number (neg_int a) (neg_int b) = a == b
same_number (float a) (float b) = a == b
same_number _ _ = false

same_bool : Bool → Bool → Bool
same_bool true b = b
same_bool false b = not b

-- `==` on values
unfoldable mutual
  unfolding same_number same_bool

  pub same : Value → Value → Bool
  same null null = true
  same (bool a) (bool b) = same_bool a b
  same (number a) (number b) = same_number a b
  same (string s) (string t) = str_eq s t
  same (array vs) (array ws) = same_items vs ws
  same (object fs) (object gs) = same_fields fs gs
  same _ _ = false

  pub same_items : Items → Items → Bool
  same_items nil nil = true
  same_items (cons v vs) (cons w ws) = same v w && same_items vs ws
  same_items _ _ = false

  pub same_fields : Fields → Fields → Bool
  same_fields end end = true
  same_fields (field k v fs) (field l w gs) = str_eq k l && (same v w && same_fields fs gs)
  same_fields _ _ = false
