-- ===== src/Examples/Toy.antt =====
-- A platform that meets the laws of its interface: times and bytes in unary, a cipher that changes
-- nothing, and a MAC that returns its data.
use Prim.Native.Char.{code, char}
use broadcast_pool.Prelude.{
  ◌+◌, ◌==◌, if◌then◌else◌, ℕ, zero, suc, String, some, List, [], ◌∷◌, ◌≡◌, refl, ap, codes,
  from_codes, from_codes-codes, arith,
}
use mathlib.Core.List.{foldr}
use broadcast_pool.Platform.{Platform, Decodes}

-- A number as so many letters, and bytes as such numbers.
unfoldable pub letters : ℕ → String
letters zero = ""
letters (suc n) = String.◌∷◌ (char 49 tt) (letters n)

unfoldable pub count : String → ℕ
count String.[] = 0
count (String.◌∷◌ _ s) = suc (count s)

pub count-letters : (n : ℕ) → count (letters n) ≡ n
unfolding count letters
count-letters zero = refl
count-letters (suc n) = ap suc (count-letters n)

-- Bytes as letters, each closed by a mark.
mark : ℕ → String → String
mark zero s = String.◌∷◌ (char 48 tt) s
mark (suc n) s = String.◌∷◌ (char 49 tt) (mark n s)

unfoldable pub hex : List ℕ → String
unfolding mark
hex [] = ""
hex (n ∷ bs) = mark n (hex bs)

unfoldable pub unmark : ℕ → String → List ℕ
unmark n String.[] = []
unmark n (String.◌∷◌ c s) = if code c == 48 then n ∷ unmark 0 s else unmark (n + 1) s

unmark-mark : (n k : ℕ) (s : String) → unmark k (mark n s) ≡ (k + n) ∷ unmark 0 s
unfolding mark unmark
unmark-mark zero k s = ground arith
unmark-mark (suc n) k s = ground (arith, unmark-mark n (k + 1) s)

pub unmark-hex : (bs : List ℕ) → unmark 0 (hex bs) ≡ bs
unfolding hex unmark
unmark-hex [] = refl
unmark-hex (n ∷ bs) = ground (arith, unmark-mark n 0 (hex bs), unmark-hex bs)

instance abbrev pub toy : Platform
toy = record {
  rfc3339 = letters;
  parse_rfc3339 = λ s. some (count s);
  show_f64 = letters;
  add_f64 = ◌+◌;
  sum_f64 = foldr ◌+◌ 0;
  as_bytes = codes;
  from_utf8 = from_codes;
  hex_encode = hex;
  hex_decode = λ s. some (unmark 0 s);
  encrypt = λ key nonce aad plain. plain;
  decrypt = λ key nonce aad cipher. some cipher;
  hmac = λ key bytes. bytes;
}

pub toy-Decodes : Decodes toy
toy-Decodes = record {
  time = λ t. ap some (count-letters t);
  text = from_codes-codes;
  hex = λ b. ap some (unmark-hex b);
  aead = λ key nonce aad plain. refl;
}
