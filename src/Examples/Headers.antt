-- ===== src/Examples/Headers.antt =====
-- The properties of made-up headers at concrete inputs: headers as bytes, and a hash that adds.
use broadcast_pool.Prelude.{
  ℕ, ◌+◌, ◌-◌, ◌%◌, ◌^◌, ◌<◌, ◌≡◌, String, Bool, ◌&&◌, ltb, Option, none, some, List, [], ◌∷◌,
  length, if◌then◌else◌, ok, arith,
}
use broadcast_pool.VirtualHeaders.{Header, Bitcoin, Fits, Reads, fabricate_headers, header_hex_at}
use broadcast_pool.VirtualHeaders.Chain.{Chain, fabricate_headers-Chain}
use broadcast_pool.VirtualHeaders.Agree.{entry_at, header_hex_at-entry}
use broadcast_pool.Examples.Toy.{hex, unmark, unmark-hex}

abbrev fits : Header → Bool
fits h =
    ltb h.version (2 ^ 32)
    && ltb h.prev_blockhash (2 ^ 256)
    && ltb h.merkle_root (2 ^ 256)
    && ltb h.time (2 ^ 32)
    && ltb h.bits (2 ^ 32)
    && ltb h.nonce (2 ^ 32)

abbrev checked : Header → Option Header
checked h = if fits h then some h else none

abbrev from_fields : List ℕ → Option Header
from_fields (v ∷ p ∷ m ∷ t ∷ c ∷ n ∷ []) =
    checked
      (record { version = v; prev_blockhash = p; merkle_root = m; time = t; bits = c; nonce = n })
from_fields _ = none

abbrev fields : Header → List ℕ
fields h = h.version ∷ h.prev_blockhash ∷ h.merkle_root ∷ h.time ∷ h.bits ∷ h.nonce ∷ []

instance abbrev pub adding : Bitcoin
adding = record {
  decode_header = λ s. from_fields (unmark 0 s);
  serialize_hex = λ h. hex (fields h);
  block_hash = λ h. (h.prev_blockhash + h.time) % 2 ^ 256;
}

checked-Fits : (g h : Header) → checked g ≡ some h → Fits h
checked-Fits g h e = record {
  version = ground arith;
  prev_blockhash = ground arith;
  merkle_root = ground arith;
  time = ground arith;
  bits = ground arith;
  nonce = ground arith;
}

from_fields-Fits : (l : List ℕ) (h : Header) → from_fields l ≡ some h → Fits h
from_fields-Fits (v ∷ p ∷ m ∷ t ∷ c ∷ n ∷ []) h e =
    checked-Fits
      (record { version = v; prev_blockhash = p; merkle_root = m; time = t; bits = c; nonce = n }) h
      e
from_fields-Fits [] h e = cc
from_fields-Fits (_ ∷ []) h e = cc
from_fields-Fits (_ ∷ _ ∷ []) h e = cc
from_fields-Fits (_ ∷ _ ∷ _ ∷ []) h e = cc
from_fields-Fits (_ ∷ _ ∷ _ ∷ _ ∷ []) h e = cc
from_fields-Fits (_ ∷ _ ∷ _ ∷ _ ∷ _ ∷ []) h e = cc
from_fields-Fits (_ ∷ _ ∷ _ ∷ _ ∷ _ ∷ _ ∷ _ ∷ _) h e = cc

fitting_header : (h : Header) → Fits h → checked h ≡ some h
fitting_header h f =
    ground (arith, f.version, f.prev_blockhash, f.merkle_root, f.time, f.bits, f.nonce)

adding-Reads : Reads adding
adding-Reads = record {
  header = λ h f. rw (unmark-hex (fields h)) (fitting_header h f);
  hashed = λ h. omega arith;
  decoded = λ s h e. from_fields-Fits (unmark 0 s) h e;
}

abbrev tip : Header
tip = record { version = 1; prev_blockhash = 5; merkle_root = 6; time = 7; bits = 8; nonce = 9 }

tip_read : adding.decode_header (adding.serialize_hex tip) ≡ some tip
tip_read = adding-Reads.header tip (record {
  version = ground arith;
  prev_blockhash = ground arith;
  merkle_root = ground arith;
  time = ground arith;
  bits = ground arith;
  nonce = ground arith;
})

headers_example :
    (headers : List (ℕ × String)) × (fabricate_headers 100 (adding.serialize_hex tip) 103
      ≡ ok headers)
    × (length headers ≡ 103 - 100)
    × Chain adding-Reads tip (100 + 1) (adding.block_hash tip) headers
headers_example =
    fabricate_headers-Chain adding-Reads 100 103 (adding.serialize_hex tip) tip tip_read
      (ground arith)

above_tip : 100 < 103
above_tip = ground arith

abbrev range : List (ℕ × String)
range =
    (fabricate_headers-Chain adding-Reads 100 103 (adding.serialize_hex tip) tip tip_read
      above_tip).0

agree_example : header_hex_at 100 (adding.serialize_hex tip) 102 ≡ ok (entry_at 102 range)
agree_example =
    header_hex_at-entry 100 102 103 (adding.serialize_hex tip) tip range tip_read (ground arith)
      (ground arith)
      (fabricate_headers-Chain adding-Reads 100 103 (adding.serialize_hex tip) tip tip_read
        above_tip).1
