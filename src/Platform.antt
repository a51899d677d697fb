-- ===== src/Platform.antt =====
-- Code that the repository only calls, as an interface: chrono's RFC 3339 text, the hex crate, the
-- AEAD cipher and the HMAC of the crypto crates, UTF-8, and the printing and the rounding sums of an `f64` (SQLite's `SUM` for a list).
use broadcast_pool.Prelude.{ℕ, String, Option, some, List, ◌≡◌}

-- Instants are nanoseconds since 1970. Every function that takes a key takes it first.
pub record Platform : Type 0 where
  pub rfc3339 : ℕ → String
  pub parse_rfc3339 : String → Option ℕ
  pub show_f64 : ℕ → String
  pub add_f64 : ℕ → ℕ → ℕ
  pub sum_f64 : List ℕ → ℕ
  pub as_bytes : String → List ℕ
  pub from_utf8 : List ℕ → Option String
  pub hex_encode : List ℕ → String
  pub hex_decode : String → Option (List ℕ)
  pub encrypt : List ℕ → List ℕ → List ℕ → List ℕ → List ℕ
  pub decrypt : List ℕ → List ℕ → List ℕ → List ℕ → Option (List ℕ)
  pub hmac : List ℕ → List ℕ → List ℕ

-- What their documentation promises: each decoder inverts its encoder.
pub record Decodes (p : Platform) : Type 0 where
  pub time : (t : ℕ) → p.parse_rfc3339 (p.rfc3339 t) ≡ some t
  pub text : (s : String) → p.from_utf8 (p.as_bytes s) ≡ some s
  pub hex : (b : List ℕ) → p.hex_decode (p.hex_encode b) ≡ some b
  pub aead :
      (key nonce aad plain : List ℕ)
      → p.decrypt key nonce aad (p.encrypt key nonce aad plain) ≡ some plain
