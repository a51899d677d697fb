-- ===== src/Prelude/Chars.antt =====
-- Texts from their code points.
use Prim.Native.Nat.{ℕ, compare, Ordering}
use Prim.Native.Char.{Char, char, IsScalar}
use Prim.Native.String.{String}
use text.Mathlib.TextEquality.{Char-path}
use mathlib.Core.Path.{◌≡◌, refl, ap, subst}
use mathlib.Core.Option.{Option, none, some}
use mathlib.Core.Option
use mathlib.Core.List.{List, [], ◌∷◌}
use native.Mathlib.Omega.{arith}
use broadcast_pool.Prelude.Tests.{unwrap_or}
use broadcast_pool.Prelude.Text.{codes, lower}

high :
    (n : ℕ) (o q : Ordering)
    → compare 57343 n ≡ o
    → compare n 1114112 ≡ q
    → compare n 55296 ≡ Ordering.gt
    → Option Char
high n Ordering.lt Ordering.lt e f g = some (char n (rw (g, e, f) tt))
high n _ _ e f g = none

low : (n : ℕ) (o : Ordering) → compare n 55296 ≡ o → Option Char
unfolding high
low n Ordering.lt e = some (char n (rw e tt))
low n Ordering.eq e = none
low n Ordering.gt e = high n (compare 57343 n) (compare n 1114112) refl refl e

to_char : ℕ → Option Char
unfolding low
to_char n = low n (compare n 55296) refl

high_lem :
    (n : ℕ) (o q : Ordering) (e : compare 57343 n ≡ o) (f : compare n 1114112 ≡ q)
    (g : compare n 55296 ≡ Ordering.gt) (h : IsScalar n)
    → high n o q e f g ≡ some (char n h)
unfolding high
high_lem n Ordering.lt Ordering.lt e f g h = ap some (Char-path _ _ refl)
high_lem n Ordering.lt Ordering.eq e f g h = absurd (rw (g, e, f) at h)
high_lem n Ordering.lt Ordering.gt e f g h = absurd (rw (g, e, f) at h)
high_lem n Ordering.eq _ e f g h = absurd (rw (g, e) at h)
high_lem n Ordering.gt _ e f g h = absurd (rw (g, e) at h)

surrogate : (n : ℕ) → compare n 55296 ≡ Ordering.eq → n ≡ 55296
surrogate n e = ground arith

low_lem :
    (n : ℕ) (o : Ordering) (e : compare n 55296 ≡ o) (h : IsScalar n) → low n o e ≡ some (char n h)
unfolding low
low_lem n Ordering.lt e h = ap some (Char-path _ _ refl)
low_lem n Ordering.eq e h = absurd (subst IsScalar (surrogate n e) h)
low_lem n Ordering.gt e h = high_lem n (compare 57343 n) (compare n 1114112) refl refl e h

unfoldable pub from_codes : List ℕ → Option String
unfolding to_char
from_codes [] = some String.[]
from_codes (n ∷ ns) =
    let rest = from_codes ns in
    elim (to_char n) [ none ↦ none | some c ↦ Option.map (String.◌∷◌ c) rest ]

to_char-code : (n : ℕ) (h : IsScalar n) → to_char n ≡ some (char n h)
unfolding to_char
to_char-code n h = low_lem n (compare n 55296) refl h

pub from_codes-codes : (s : String) → from_codes (codes s) ≡ some s
unfolding from_codes
from_codes-codes String.[] = refl
from_codes-codes (String.◌∷◌ (char n h) s) =
    rw (to_char-code n h, from_codes-codes s, from_codes) refl

-- `s.to_lowercase()` on ASCII letters
unfoldable pub lower_text : String → String
unfolding lower from_codes
lower_text s = unwrap_or (from_codes (lower (codes s))) s
