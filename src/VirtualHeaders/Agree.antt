-- ===== src/VirtualHeaders/Agree.antt =====
-- One header of src/electrum_server/virtual_headers.rs and a range of them.
use broadcast_pool.Prelude.{
  ℕ, zero, suc, ◌+◌, ◌-◌, ◌≤◌, ◌<◌, ◌≡◌, subst, String, Option, none, some, List, [], ◌∷◌,
  if◌then◌else◌, ◌==◌, ok, arith,
}
use broadcast_pool.VirtualHeaders.{
  Header, Bitcoin, virtual_header, fabricate, fabricate_headers, last_hex, header_hex_at,
}

-- The entry of a height.
abbrev pub entry_at : ℕ → List (ℕ × String) → Option String
entry_at height [] = none
entry_at height ((h, hex) ∷ es) = if h == height then some hex else entry_at height es

module _ ⦃b : Bitcoin⦄ where
  last-fabricate :
      (n m : ℕ) (tip : Header) (real h prev_hash : ℕ)
      → n < m
      → last_hex (fabricate (suc n) tip real h prev_hash)
        ≡ entry_at (h + n) (fabricate m tip real h prev_hash)
  unfolding fabricate
  last-fabricate n zero tip real h prev_hash less = absurd (omega arith)
  last-fabricate zero (suc m) tip real h prev_hash less = ground arith
  last-fabricate (suc n) (suc m) tip real h prev_hash less =
      let next = b.block_hash (virtual_header tip real h prev_hash) in
      ground (arith, last-fabricate n m tip real (h + 1) next (omega arith))

  -- When the hex of the tip decodes: a header that is asked for alone, at a height above the tip, is the
  -- one that a range up to that height or further has there, so a wallet sees one chain.
  pub header_hex_at-entry :
      (real height up : ℕ) (tip_hex : String) (tip : Header) (headers : List (ℕ × String))
      → b.decode_header tip_hex ≡ some tip
      → real < height
      → height ≤ up
      → fabricate_headers real tip_hex up ≡ ok headers
      → header_hex_at real tip_hex height ≡ ok (entry_at height headers)
  unfolding header_hex_at fabricate_headers
  header_hex_at-entry real height up tip_hex tip headers e above below h =
      let found =
        last-fabricate (height - real - 1) (up - real) tip real (real + 1) (b.block_hash tip)
          (omega arith) in
      let size : suc (height - real - 1) ≡ height - real = omega arith in
      let place : real + 1 + (height - real - 1) ≡ height = omega arith in
      let range = fabricate (up - real) tip real (real + 1) (b.block_hash tip) in
      let alone : ℕ → Option String =
        λ k. last_hex (fabricate k tip real (real + 1) (b.block_hash tip)) in
      let exact : alone (height - real) ≡ entry_at height range =
        subst (λ k. alone k ≡ entry_at height range) size
          (subst (λ x. alone (suc (height - real - 1)) ≡ entry_at x range) place found) in
      ground (arith, e, exact)
