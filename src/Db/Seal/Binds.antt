-- ===== src/Db/Seal/Binds.antt =====
-- Which columns the seal of a row of src/db/mod.rs binds.
use broadcast_pool.Prelude.{
  ℕ, String, false, ◌≡◌, ◌≢◌, refl, sym, ◌∙◌, ap, some, List, [], ◌∷◌, ◌++◌, map, length, All,
  append-append_one, arith, unwrap_or, show_nat,
}
use mathlib.Core.Option
use broadcast_pool.Platform.{Platform, Decodes}
use broadcast_pool.Crypto.{mac}
use broadcast_pool.Db.{Row, join, row_mac_input, expected_mac, map_broadcast_row}
use broadcast_pool.Db.Seal.{IsSealed, tampered-map_broadcast_row}

-- Without the byte that separates the fields.
abbrev pub Clean : List ℕ → Type 0
Clean = All (λ c. c ≢ 0x1f)

split_at_separator :
    (a b u v : List ℕ) → Clean a → Clean b → a ++ 0x1f ∷ u ≡ b ++ 0x1f ∷ v → (a ≡ b) × (u ≡ v)
split_at_separator [] [] u v h k e = (refl, ground (arith, e))
split_at_separator [] (y ∷ b) u v h k e = absurd (k.0 (ground (arith, e)))
split_at_separator (x ∷ a) [] u v h k e = absurd (h.0 (ground (arith, e)))
split_at_separator (x ∷ a) (y ∷ b) u v h k e =
    let (same, rest) = split_at_separator a b u v h.1 k.1 (ground (arith, e)) in
    (ground (arith, e, same), rest)

join-injective :
    (xs ys : List (List ℕ))
    → length xs ≡ length ys
    → All Clean xs
    → All Clean ys
    → join (0x1f ∷ []) xs ≡ join (0x1f ∷ []) ys
    → xs ≡ ys
unfolding join
join-injective [] [] n h k e = refl
join-injective [] (y ∷ ys) n h k e = absurd (ground (arith, n))
join-injective (x ∷ xs) [] n h k e = absurd (ground (arith, n))
join-injective (x ∷ []) (y ∷ []) n h k e = ap (λ l. l ∷ []) e
join-injective (x ∷ []) (y ∷ z ∷ ys) n h k e = absurd (ground (arith, n))
join-injective (x ∷ w ∷ xs) (y ∷ []) n h k e = absurd (ground (arith, n))
join-injective (x ∷ w ∷ xs) (y ∷ z ∷ ys) n h k e =
    let (same, rest) =
      split_at_separator x y (join (0x1f ∷ []) (w ∷ xs)) (join (0x1f ∷ []) (z ∷ ys)) h.0 k.0 (
        sym (append-append_one x 0x1f (join (0x1f ∷ []) (w ∷ xs)))
        ∙ e
        ∙ append-append_one y 0x1f (join (0x1f ∷ []) (z ∷ ys))) in
    let tails = join-injective (w ∷ xs) (z ∷ ys) (ground (arith, n)) h.1 k.1 rest in
    ground (arith, same, tails)

module _ ⦃p : Platform⦄ (laws : Decodes p) where
  as_bytes-injective : (s t : String) → p.as_bytes s ≡ p.as_bytes t → s ≡ t
  as_bytes-injective s t e =
      let same : some s ≡ some t = sym (laws.text s) ∙ ap p.from_utf8 e ∙ laws.text t in
      ground (arith, same)

  texts-injective : (ss ts : List String) → map p.as_bytes ss ≡ map p.as_bytes ts → ss ≡ ts
  texts-injective [] [] e = refl
  texts-injective [] (t ∷ ts) e = absurd (ground (arith, e))
  texts-injective (s ∷ ss) [] e = absurd (ground (arith, e))
  texts-injective (s ∷ ss) (t ∷ ts) e =
      ground (arith, e, as_bytes-injective s t, texts-injective ss ts)

  hex-injective : (a b : List ℕ) → p.hex_encode a ≡ p.hex_encode b → a ≡ b
  hex-injective a b e =
      let same : some a ≡ some b = sym (laws.hex a) ∙ ap p.hex_decode e ∙ laws.hex b in
      ground (arith, same)

module _ ⦃p : Platform⦄ where
  -- The columns that the seal is to bind, as text.
  abbrev pub columns : Row → List String
  columns r =
      r.id
      ∷ r.status
      ∷ unwrap_or r.broadcast_mode ""
      ∷ unwrap_or r.scheduled_time ""
      ∷ show_nat r.nlocktime
      ∷ unwrap_or (Option.map p.show_f64 r.target_price) ""
      ∷ unwrap_or r.schedule_trigger ""
      ∷ unwrap_or r.price_condition ""
      ∷ r.tx_hex
      ∷ unwrap_or r.destination_address ""
      ∷ []

  -- They stand in one byte string.
  abbrev pub bytes_of : Row → List ℕ
  bytes_of r = join (0x1f ∷ []) (map p.as_bytes (columns r))

  expected_mac-bytes_of :
      (key : List ℕ) (r : Row) → expected_mac key r ≡ p.hex_encode (p.hmac key (bytes_of r))
  unfolding expected_mac row_mac_input mac
  expected_mac-bytes_of key r = refl

  -- Take a sealed row, and a row that carries its MAC. Where the encoders have their decoders, no
  -- bound column has the byte 0x1f, and the HMAC does not give both rows' bytes one value unless
  -- they are the same: if the other row is read as untampered, it has the same id, status, mode,
  -- time, decimal nLockTime, target price, trigger, price condition, stored hex and stored
  -- destination, an absent one counted as empty.
  pub untampered-columns :
      (laws : Decodes p) (now : ℕ) (key : List ℕ) (r q : Row)
      → All Clean (map p.as_bytes (columns r))
      → All Clean (map p.as_bytes (columns q))
      → (p.hmac key (bytes_of q) ≡ p.hmac key (bytes_of r) → bytes_of q ≡ bytes_of r)
      → IsSealed key r
      → q.row_mac ≡ r.row_mac
      → (map_broadcast_row now key q).tampered ≡ some false
      → columns q ≡ columns r
  untampered-columns laws now key r q clean clean' no_collision sealed kept intact =
      let own : q.row_mac ≡ some (expected_mac key q) =
        (tampered-map_broadcast_row now key q).0 intact in
      let macs : expected_mac key q ≡ expected_mac key r = ground (arith, own, kept, sealed) in
      let hexes = sym (expected_mac-bytes_of key q) ∙ macs ∙ expected_mac-bytes_of key r in
      let inputs = no_collision (hex-injective laws _ _ hexes) in
      texts-injective laws (columns q) (columns r) (
        join-injective (map p.as_bytes (columns q)) (map p.as_bytes (columns r)) refl clean' clean
          inputs)
