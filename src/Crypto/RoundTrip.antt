-- ===== src/Crypto/RoundTrip.antt =====
-- What `encode_field` of src/crypto/mod.rs writes, `decode_field` reads.
use broadcast_pool.Prelude.{
  ℕ, zero, suc, String, true, List, [], ◌∷◌, ◌++◌, length, take, drop, ◌≡◌, refl, ap, arith, ok,
  length-append, strip_prefix-concat,
}
use broadcast_pool.Platform.{Platform, Decodes}
use broadcast_pool.Crypto.{is_encoded, seal, open_blob, encode_field, decode_field, field_prefix}

take-append : {A : Type 0} (n : ℕ) (xs ys : List A) → length xs ≡ n → take n (xs ++ ys) ≡ xs
take-append zero [] ys h = refl
take-append (suc n) [] ys h = absurd (omega arith)
take-append zero (x ∷ xs) ys h = absurd (omega arith)
take-append (suc n) (x ∷ xs) ys h = ap (◌∷◌ x) (take-append n xs ys (omega arith))

drop-append : {A : Type 0} (n : ℕ) (xs ys : List A) → length xs ≡ n → drop n (xs ++ ys) ≡ ys
drop-append zero [] ys h = refl
drop-append (suc n) [] ys h = absurd (omega arith)
drop-append zero (x ∷ xs) ys h = absurd (omega arith)
drop-append (suc n) (x ∷ xs) ys h = drop-append n xs ys (omega arith)

module _ ⦃p : Platform⦄ (laws : Decodes p) (nonce key : List ℕ) (sized : length nonce ≡ 12) where
  -- With a nonce of 12 bytes, opening a sealed blob under the same key and associated data gives
  -- the plaintext back.
  pub open_blob-seal :
      (plain aad : List ℕ) → open_blob key (seal nonce key plain aad) aad ≡ ok plain
  unfolding open_blob seal
  open_blob-seal plain aad = ground (
    arith,
    take-append 12 nonce (p.encrypt key nonce aad plain) sized,
    drop-append 12 nonce (p.encrypt key nonce aad plain) sized,
    length-append nonce (p.encrypt key nonce aad plain),
    laws.aead key nonce aad plain,
  )

  -- Where each decoder inverts its encoder and the nonce has 12 bytes, an encoded field is
  -- recognised as encoded, and decodes to its text under the same key and associated data.
  pub decode_field-encode_field :
      (s : String) (aad : List ℕ)
      → (is_encoded (encode_field nonce key s aad) ≡ true)
        × (decode_field key (encode_field nonce key s aad) aad ≡ ok s)
  unfolding is_encoded encode_field decode_field
  decode_field-encode_field s aad =
      let b = seal nonce key (p.as_bytes s) aad in
      (
        ground (arith, strip_prefix-concat field_prefix (p.hex_encode b)),
        ground (
          arith,
          strip_prefix-concat field_prefix (p.hex_encode b),
          laws.hex b,
          open_blob-seal (p.as_bytes s) aad,
          laws.text s,
        ),
      )
