-- ===== src/Electrum/Inject/Balance.antt =====
-- The balance of an answer after the pending value is put in (src/pool/virtual_mempool.rs).
use broadcast_pool.Prelude.{
  ℕ, ◌<◌, ◌^◌, ◌==◌, Bool-cases, inl, inr, some, unwrap_or, ◌≡◌, refl, sym, ap, ltb, arith,
}
use broadcast_pool.Json.{ℤ, pos, negsuc, Value, get, find_field, and_then, as_i64, from_i64}
use broadcast_pool.Electrum.Inject.{
  u64_as_i64, ◌+ℤ◌, wrap_i64, inject_balance_unconfirmed, i64_field,
}

-- A magnitude below `n`.
abbrev pub Below : ℕ → ℤ → Type 0
Below n (pos a) = a < n
Below n (negsuc a) = a < n

-- A sum of two small numbers does not wrap.
wrap-exact :
    (z : ℤ) (n : ℕ) → Below (2 ^ 62) z → n < 2 ^ 62 → wrap_i64 (z +ℤ u64_as_i64 n) ≡ z +ℤ pos n
unfolding wrap_i64 ◌+ℤ◌ u64_as_i64
wrap-exact (pos a) n h k = ground arith
wrap-exact (negsuc a) n h k = ground arith

from_i64-as_i64 : (z : ℤ) → Below (2 ^ 63) z → as_i64 (from_i64 z) ≡ some z
unfolding as_i64
from_i64-as_i64 (pos n) h = ground arith
from_i64-as_i64 (negsuc n) h = refl

+ℤ-zero : (z : ℤ) → z +ℤ pos 0 ≡ z
unfolding ◌+ℤ◌
+ℤ-zero (pos n) = ground arith
+ℤ-zero (negsuc n) = ground arith

+ℤ-Below : (z : ℤ) (n : ℕ) → Below (2 ^ 62) z → n < 2 ^ 62 → Below (2 ^ 63) (z +ℤ pos n)
unfolding ◌+ℤ◌
+ℤ-Below (pos a) n h k = omega arith
+ℤ-Below (negsuc a) n h k = elim (Bool-cases (ltb a n)) [
  | inl e ↦ rw e (omega arith)
  | inr e ↦ rw e (omega arith)
]

-- For amounts below 2^62 satoshis in absolute value (the money supply is below 2^51), an answer to
-- `get_balance` shows after the injection the confirmed value that it had, and the unconfirmed one
-- plus the pending value.
pub inject_balance-Exact :
    (balance : Value) (extra : ℕ)
    → Below (2 ^ 63) (i64_field "confirmed" balance)
    → Below (2 ^ 62) (i64_field "unconfirmed" balance)
    → extra < 2 ^ 62
    → (i64_field "confirmed" (inject_balance_unconfirmed balance extra)
        ≡ i64_field "confirmed" balance)
      × (i64_field "unconfirmed" (inject_balance_unconfirmed balance extra)
          ≡ i64_field "unconfirmed" balance +ℤ pos extra)
unfolding inject_balance_unconfirmed get and_then find_field
inject_balance-Exact balance extra c u k = elim (Bool-cases (extra == 0)) [
  | inl e ↦ rw e (refl, let zero : extra ≡ 0 = ground arith in rw zero (sym (+ℤ-zero _)))
  | inr e ↦ rw e (
    ap (λ o. unwrap_or o (pos 0)) (from_i64-as_i64 _ c),
    rw (wrap-exact _ extra u k)
        (ap (λ o. unwrap_or o (pos 0)) (from_i64-as_i64 _ (+ℤ-Below _ extra u k))),
  )
]
