-- ===== src/VirtualHeaders/Chain.antt =====
-- The headers of src/electrum_server/virtual_headers.rs form a chain.
use broadcast_pool.Prelude.{
  ℕ, zero, suc, ◌+◌, ◌-◌, ◌^◌, ◌<◌, ◌≡◌, refl, ap, String, some, List, [], ◌∷◌, length, ok, arith,
}
use broadcast_pool.VirtualHeaders.{
  Header, Bitcoin, Fits, Reads, virtual_header, fabricate, fabricate_headers,
}

module _ ⦃b : Bitcoin⦄ (laws : Reads b) where
  -- One header for each height from `h` on: each decodes, names the hash of the one before, and has the
  -- version and the target of the tip.
  abbrev pub Chain : Header → ℕ → ℕ → List (ℕ × String) → Type 0
  Chain tip h prev_hash [] = Unit
  Chain tip h prev_hash ((height, hex) ∷ rest) =
      (header : Header) × (height ≡ h)
      × (b.decode_header hex ≡ some header)
      × (header.prev_blockhash ≡ prev_hash)
      × (header.version ≡ tip.version)
      × (header.bits ≡ tip.bits)
      × Chain tip (h + 1) (b.block_hash header) rest

  virtual_header-Fits :
      (tip : Header) (real h : ℕ) (prev_hash : ℕ)
      → Fits tip
      → prev_hash < 2 ^ 256
      → Fits (virtual_header tip real h prev_hash)
  unfolding virtual_header
  virtual_header-Fits tip real h prev_hash f g = record {
    version = f.version;
    prev_blockhash = g;
    merkle_root = omega arith;
    time = omega arith;
    bits = f.bits;
    nonce = omega arith;
  }

  fabricate-Chain :
      (n : ℕ) (tip : Header) (real h : ℕ) (prev_hash : ℕ)
      → Fits tip
      → prev_hash < 2 ^ 256
      → Chain tip h prev_hash (fabricate n tip real h prev_hash)
  unfolding fabricate virtual_header
  fabricate-Chain zero tip real h prev_hash f g = tt
  fabricate-Chain (suc n) tip real h prev_hash f g =
      let header = virtual_header tip real h prev_hash in
      (
        header,
        refl,
        laws.header header (virtual_header-Fits tip real h prev_hash f g),
        refl,
        refl,
        refl,
        fabricate-Chain n tip real (h + 1) (b.block_hash header) f (laws.hashed header),
      )

  length-fabricate :
      (n : ℕ) (tip : Header) (real h : ℕ) (prev_hash : ℕ)
      → length (fabricate n tip real h prev_hash) ≡ n
  unfolding fabricate
  length-fabricate zero tip real h prev_hash = refl
  length-fabricate (suc n) tip real h prev_hash =
      ap suc
        (length-fabricate n tip real (h + 1) (b.block_hash (virtual_header tip real h prev_hash)))

  -- When the hex of the tip decodes and the target is above it: one header for each height from the one
  -- above the tip up to the target, each of which decodes, names the hash of the one before it, the first
  -- that of the tip, and has the version and the target of the tip.
  pub fabricate_headers-Chain :
      (real up : ℕ) (tip_hex : String) (tip : Header)
      → b.decode_header tip_hex ≡ some tip
      → real < up
      → (headers : List (ℕ × String)) × (fabricate_headers real tip_hex up ≡ ok headers)
        × (length headers ≡ up - real)
        × Chain tip (real + 1) (b.block_hash tip) headers
  unfolding fabricate_headers
  fabricate_headers-Chain real up tip_hex tip e above = (
    fabricate (up - real) tip real (real + 1) (b.block_hash tip),
    ground (arith, e),
    length-fabricate (up - real) tip real (real + 1) (b.block_hash tip),
    fabricate-Chain (up - real) tip real (real + 1) (b.block_hash tip) (laws.decoded tip_hex tip e)
        (laws.hashed tip),
  )
