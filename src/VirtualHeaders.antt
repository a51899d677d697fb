-- ===== src/VirtualHeaders.antt =====
-- src/electrum_server/virtual_headers.rs: made-up block headers above the real chain tip.
pub mod Chain
pub mod Agree
use broadcast_pool.Prelude.{
  ℕ, zero, suc, ◌+◌, ◌-◌, ◌*◌, ◌%◌, ◌^◌, min, String, Option, none, some, List, [], ◌∷◌,
  if◌then◌else◌, leb, Result, ok, err, ◌≡◌, ◌<◌,
}

-- A block header of the bitcoin crate: its hashes are numbers of 256 bits, the others of 32.
pub record Header : Type 0 where
  pub version : ℕ
  pub prev_blockhash : ℕ
  pub merkle_root : ℕ
  pub time : ℕ
  pub bits : ℕ
  pub nonce : ℕ

-- What the hex and bitcoin crates do: `decode_header` trims, decodes the hex and then the header.
pub record Bitcoin : Type 0 where
  pub decode_header : String → Option Header
  pub serialize_hex : Header → String
  pub block_hash : Header → ℕ

pub record Fits (h : Header) : Type 0 where
  pub version : h.version < 2 ^ 32
  pub prev_blockhash : h.prev_blockhash < 2 ^ 256
  pub merkle_root : h.merkle_root < 2 ^ 256
  pub time : h.time < 2 ^ 32
  pub bits : h.bits < 2 ^ 32
  pub nonce : h.nonce < 2 ^ 32

-- What their documentation promises: a header whose numbers fit is read back from its hex.
pub record Reads (b : Bitcoin) : Type 0 where
  pub header : (h : Header) → Fits h → b.decode_header (b.serialize_hex h) ≡ some h
  pub hashed : (h : Header) → b.block_hash h < 2 ^ 256
  pub decoded : (s : String) (h : Header) → b.decode_header s ≡ some h → Fits h

abbrev pub secs_per_block : ℕ
secs_per_block = 600

abbrev pub u32_max : ℕ
u32_max = 2 ^ 32 - 1

abbrev pub saturating_add : ℕ → ℕ → ℕ
saturating_add a c = min (a + c) u32_max

abbrev pub saturating_mul : ℕ → ℕ → ℕ
saturating_mul a c = min (a * c) u32_max

module _ ⦃b : Bitcoin⦄ where
  -- The header at height `h` above the real tip, on top of the block with hash `prev_hash`.
  unfoldable pub virtual_header : Header → ℕ → ℕ → ℕ → Header
  virtual_header tip real_tip_height h prev_hash = record {
    version = tip.version;
    prev_blockhash = prev_hash;
    merkle_root = 0;
    time = saturating_add tip.time (saturating_mul secs_per_block ((h - real_tip_height) % 2 ^ 32));
    bits = tip.bits;
    nonce = 0;
  }

  -- `n` headers from height `h` on.
  unfoldable pub fabricate : ℕ → Header → ℕ → ℕ → ℕ → List (ℕ × String)
  unfolding virtual_header
  fabricate zero tip real_tip_height h prev_hash = []
  fabricate (suc n) tip real_tip_height h prev_hash =
      let header = virtual_header tip real_tip_height h prev_hash in
      (h, b.serialize_hex header) ∷ fabricate n tip real_tip_height (h + 1) (b.block_hash header)

  unfoldable pub fabricate_headers : ℕ → String → ℕ → Result (List (ℕ × String))
  unfolding fabricate
  fabricate_headers real_tip_height real_tip_header_hex up_to_height =
      if leb up_to_height real_tip_height
      then ok []
      else elim (b.decode_header real_tip_header_hex) [
        | none ↦ err "virtual_headers: not an 80-byte header"
        | some tip ↦ ok (
            fabricate (up_to_height - real_tip_height) tip real_tip_height (real_tip_height + 1)
              (b.block_hash tip))
      ]

  abbrev pub last_hex : List (ℕ × String) → Option String
  last_hex [] = none
  last_hex ((_, hex) ∷ []) = some hex
  last_hex (_ ∷ e ∷ es) = last_hex (e ∷ es)

  abbrev last_of : Result (List (ℕ × String)) → Result (Option String)
  last_of (ok headers) = ok (last_hex headers)
  last_of (err e) = err e

  unfoldable pub header_hex_at : ℕ → String → ℕ → Result (Option String)
  header_hex_at real_tip_height real_tip_header_hex height =
      if leb height real_tip_height
      then ok none
      else last_of (fabricate_headers real_tip_height real_tip_header_hex height)
