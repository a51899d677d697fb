-- ===== src/Crypto.antt =====
-- src/crypto/mod.rs: sealed blobs, `nonce ‖ ciphertext`, and encoded text fields, `enc:v1:<hex>`.
-- The random nonce of `seal` is an argument.
pub mod RoundTrip
use broadcast_pool.Prelude.{
  ℕ, String, Bool, Option, none, some, List, ◌++◌, length, take, drop, ltb, if◌then◌else◌, Result,
  ok, err, is_some, concat, strip_prefix,
}
use broadcast_pool.Platform.{Platform}

abbrev pub field_prefix : String
field_prefix = "enc:v1:"

abbrev pub or_err {ℓ} : {A : Type ℓ} → String → Option A → Result A
or_err e none = err e
or_err e (some a) = ok a

abbrev pub and_then {ℓ κ} : {A : Type ℓ} {B : Type κ} → Result A → (A → Result B) → Result B
and_then (ok a) f = f a
and_then (err e) f = err e

pub is_encoded : String → Bool
is_encoded s = is_some (strip_prefix field_prefix s)

module _ ⦃p : Platform⦄ where
  pub seal : List ℕ → List ℕ → List ℕ → List ℕ → List ℕ
  seal nonce key plaintext aad = nonce ++ p.encrypt key nonce aad plaintext

  pub open_blob : List ℕ → List ℕ → List ℕ → Result (List ℕ)
  open_blob key blob aad =
      if ltb (length blob) 12
      then err "ciphertext blob too short"
      else or_err "AEAD decryption/authentication failed"
          (p.decrypt key (take 12 blob) aad (drop 12 blob))

  pub encode_field : List ℕ → List ℕ → String → List ℕ → String
  unfolding seal
  encode_field nonce key plaintext aad =
      concat field_prefix (p.hex_encode (seal nonce key (p.as_bytes plaintext) aad))

  decode_hex : List ℕ → List ℕ → String → Result String
  unfolding open_blob
  decode_hex key aad h = and_then (or_err "invalid hex in encoded field" (p.hex_decode h)) λ blob.
      and_then (open_blob key blob aad)
        λ pt. or_err "decrypted field is not valid UTF-8" (p.from_utf8 pt)

  unfoldable pub decode_field : List ℕ → String → List ℕ → Result String
  unfolding decode_hex
  decode_field key s aad = elim (strip_prefix field_prefix s) [
    | none ↦ ok s
    | some h ↦ decode_hex key aad h
  ]

  unfoldable pub mac : List ℕ → List ℕ → List ℕ
  mac key bytes = p.hmac key bytes
