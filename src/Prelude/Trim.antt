-- ===== src/Prelude/Trim.antt =====
-- Cutting blanks off twice is cutting them off once.
use Prim.Native.Char.{Char, code}
use Prim.Native.String.{String}
use mathlib.Core.Path.{◌≡◌, refl, sym, ◌∙◌, ap}
use mathlib.Core.Bool.{Bool, true, false, ◌&&◌, false≢true}
use native.Mathlib.Omega.{arith}
use broadcast_pool.Prelude.Tests.{if◌then◌else◌}
use broadcast_pool.Prelude.Text.{is_whitespace, is_empty, trim_start, trim_end, trim}

trim_end_idempotent : (s : String) → trim_end (trim_end s) ≡ trim_end s
unfolding trim_end
trim_end_idempotent String.[] = refl
trim_end_idempotent (String.◌∷◌ c s) = ground (arith, trim_end_idempotent s)

trim_start_idempotent : (s : String) → trim_start (trim_start s) ≡ trim_start s
unfolding trim_start
trim_start_idempotent String.[] = refl
trim_start_idempotent (String.◌∷◌ c s) = ground (arith, trim_start_idempotent s)

rest : String → String
rest String.[] = ""
rest (String.◌∷◌ c s) = s

cut :
    (b : Bool) (c : Char) (r s : String)
    → (if b then "" else String.◌∷◌ c r) ≡ String.◌∷◌ c s
    → r ≡ s
unfolding rest
cut true c r s h = absurd (false≢true (sym (ap is_empty h)))
cut false c r s h = ap rest h

-- A text without blanks at its end has none there after its start is cut.
trim_end-trim_start : (s : String) → trim_end s ≡ s → trim_end (trim_start s) ≡ trim_start s
unfolding trim_start trim_end
trim_end-trim_start String.[] h = refl
trim_end-trim_start (String.◌∷◌ c s) h =
    let tail = cut (is_whitespace (code c) && is_empty (trim_end s)) c (trim_end s) s h in
    ground (arith, trim_end-trim_start s tail)

pub trim_idempotent : (s : String) → trim (trim s) ≡ trim s
unfolding trim
trim_idempotent s =
    ap trim_start (trim_end-trim_start (trim_end s) (trim_end_idempotent s))
    ∙ trim_start_idempotent (trim_end s)
