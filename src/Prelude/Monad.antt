-- ===== src/Prelude/Monad.antt =====
-- Code that reads and writes a state and may fail with `?`. What was written before a failure
-- stays written, so the state comes back beside the error too.

use mathlib.Core.Option.{Option, none, some}
use Prim.Native.String.{String}

-- `anyhow::Result`: an error is the text that it prints.
pub data Result {ℓ} (A : Type ℓ) : Type ℓ where
  ok : A → Result A
  err : String → Result A

abbrev pub Exec {ℓ} : Type ℓ → Type ℓ → Type ℓ
Exec S A = S → Result A × S

module _ {ℓ} {S A : Type ℓ} where
  abbrev pub pure : A → Exec S A
  pure a s = (ok a, s)

  abbrev pub bail : String → Exec S A
  bail e s = (err e, s)

  abbrev pub lift : Result A → Exec S A
  lift r s = (r, s)

  abbrev pub gets : (S → A) → Exec S A
  gets f s = (ok (f s), s)

  abbrev pub context : String → Option A → Exec S A
  context e none s = (err e, s)
  context e (some a) s = (ok a, s)

  -- The result as a value, for `if let Err(e) = …` and `match`.
  abbrev pub attempt : Exec S A → Exec S (Result A)
  attempt m s = let (r, s') = m s in (ok r, s')

abbrev pub modify {ℓ} : {S : Type ℓ} → (S → S) → Exec S (Unit {ℓ})
modify f s = (ok tt, f s)

module _ {ℓ} {S A B : Type ℓ} where
  abbrev pub continue : Result A → (A → Exec S B) → Exec S B
  continue (ok a) f s = f a s
  continue (err e) f s = (err e, s)

  infixl 10 ◌>>=◌ ◌>>◌
  abbrev pub ◌>>=◌ : Exec S A → (A → Exec S B) → Exec S B
  ◌>>=◌ m f s = let (r, s') = m s in continue r f s'

  abbrev pub ◌>>◌ : Exec S A → Exec S B → Exec S B
  ◌>>◌ m k s = let (r, s') = m s in continue r (λ _. k) s'

-- A predicate on the state that holds after each of two steps holds after their sequence.
pub after-bind {ℓ κ} :
    {S A B : Type ℓ} (Q : S → Type κ) (m : Exec S A) (f : A → Exec S B) (s : S)
    → Q (m s).1
    → ((a : A) → Q (f a (m s).1).1)
    → Q ((m >>= f) s).1
after-bind {S} {A} {B} Q m f s h k = go (m s).0
  where
    go : (r : Result A) → Q (continue r f (m s).1).1
    go (ok a) = k a
    go (err e) = h
