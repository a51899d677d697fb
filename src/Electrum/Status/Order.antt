-- ===== src/Electrum/Status/Order.antt =====
-- A status does not depend on the order of a history (src/pool/virtual_mempool.rs).
use broadcast_pool.Prelude.{
  ℕ, String, true, false, some, List, [], ◌∷◌, if◌then◌else◌, codes, concat, from_codes,
  from_codes-codes, ◌≡◌, refl, sym, ◌∙◌, ap, arith, map,
}
use mathlib.Core.List.{foldr, Perm}
use mathlib.Core.List.Perm
use text.Mathlib.TextEquality.{IsScalar-prop}
use broadcast_pool.Platform.{Platform}
use broadcast_pool.Json.{ℤ, pos, negsuc, Value}
use broadcast_pool.Transactions.{Codec}
use broadcast_pool.Electrum.Status.{
  Key, key, key_le, int_le, codes_le, insert_entry, sort_entries, key_text, status_text,
  compute_status_hash,
}

-- The order of texts.
codes_le_total : (s t : List ℕ) → codes_le s t ≡ false → codes_le t s ≡ true
unfolding codes_le
codes_le_total [] t e = ground arith
codes_le_total (c ∷ s) [] e = refl
codes_le_total (c ∷ s) (d ∷ t) e = ground (arith, codes_le_total s t)

codes_le_antisym : (s t : List ℕ) → codes_le s t ≡ true → codes_le t s ≡ true → s ≡ t
unfolding codes_le
codes_le_antisym [] [] e f = refl
codes_le_antisym [] (d ∷ t) e f = absurd (ground arith)
codes_le_antisym (c ∷ s) [] e f = absurd (ground arith)
codes_le_antisym (c ∷ s) (d ∷ t) e f = ground (arith, codes_le_antisym s t)

codes_le_trans : (s t u : List ℕ) → codes_le s t ≡ true → codes_le t u ≡ true → codes_le s u ≡ true
unfolding codes_le
codes_le_trans [] t u e f = refl
codes_le_trans (c ∷ s) [] u e f = absurd (ground arith)
codes_le_trans (c ∷ s) (d ∷ t) [] e f = absurd (ground arith)
codes_le_trans (c ∷ s) (d ∷ t) (x ∷ u) e f = ground (arith, codes_le_trans s t u)

int_le_total : (a b : ℤ) → int_le a b ≡ false → int_le b a ≡ true
unfolding int_le
int_le_total (pos a) (pos b) e = ground arith
int_le_total (pos a) (negsuc b) e = refl
int_le_total (negsuc a) (pos b) e = ground arith
int_le_total (negsuc a) (negsuc b) e = ground arith

int_le_antisym : (a b : ℤ) → int_le a b ≡ true → int_le b a ≡ true → a ≡ b
unfolding int_le
int_le_antisym (pos a) (pos b) e f = ground arith
int_le_antisym (pos a) (negsuc b) e f = absurd (ground arith)
int_le_antisym (negsuc a) (pos b) e f = absurd (ground arith)
int_le_antisym (negsuc a) (negsuc b) e f = ground arith

int_le_trans : (a b c : ℤ) → int_le a b ≡ true → int_le b c ≡ true → int_le a c ≡ true
unfolding int_le
int_le_trans (pos a) (pos b) (pos c) e f = ground arith
int_le_trans (pos a) (pos b) (negsuc c) e f = ground arith
int_le_trans (pos a) (negsuc b) c e f = absurd (ground arith)
int_le_trans (negsuc a) (pos b) (pos c) e f = refl
int_le_trans (negsuc a) (pos b) (negsuc c) e f = absurd (ground arith)
int_le_trans (negsuc a) (negsuc b) (pos c) e f = refl
int_le_trans (negsuc a) (negsuc b) (negsuc c) e f = ground arith

codes-injective : (s t : String) → codes s ≡ codes t → s ≡ t
codes-injective s t e =
    let same : some s ≡ some t = sym (from_codes-codes s) ∙ ap from_codes e ∙ from_codes-codes t in
    ground arith

key_le_total : (a b : Key) → key_le a b ≡ false → key_le b a ≡ true
unfolding key_le
key_le_total (h, s) (k, t) e =
    ground (arith, int_le_total h k, int_le_total k h, codes_le_total (codes s) (codes t))

key_le_antisym : (a b : Key) → key_le a b ≡ true → key_le b a ≡ true → a ≡ b
unfolding key_le
key_le_antisym (h, s) (k, t) e f =
    ground (arith, int_le_antisym h k, codes_le_antisym (codes s) (codes t), codes-injective s t)

key_le_trans : (a b c : Key) → key_le a b ≡ true → key_le b c ≡ true → key_le a c ≡ true
unfolding key_le
key_le_trans (h, s) (k, t) (l, u) e f = ground (
  arith,
  int_le_trans h k l,
  int_le_trans l h k,
  int_le_trans k l h,
  codes_le_trans (codes s) (codes t) (codes u),
)

-- The keys of the sorted entries are the sorted keys.
insert_key : Key → List Key → List Key
insert_key a [] = a ∷ []
insert_key a (b ∷ bs) = let rest = insert_key a bs in if key_le a b then a ∷ b ∷ bs else b ∷ rest

sort_keys : List Key → List Key
sort_keys = foldr insert_key []

insert_key-entry :
    (v : Value) (ws : List Value) → map key (insert_entry v ws) ≡ insert_key (key v) (map key ws)
unfolding insert_entry insert_key
insert_key-entry v [] = refl
insert_key-entry v (w ∷ ws) = ground (arith, insert_key-entry v ws)

sort_keys-entries : (vs : List Value) → map key (sort_entries vs) ≡ sort_keys (map key vs)
unfolding sort_entries sort_keys
sort_keys-entries [] = refl
sort_keys-entries (v ∷ vs) =
    insert_key-entry v (sort_entries vs) ∙ ap (insert_key (key v)) (sort_keys-entries vs)

-- The two orders of two insertions come to the same.
insert_key-swap :
    (a b : Key) (l : List Key) → insert_key a (insert_key b l) ≡ insert_key b (insert_key a l)
unfolding insert_key
insert_key-swap a b [] = ground (arith, key_le_total a b, key_le_total b a, key_le_antisym a b)
insert_key-swap a b (x ∷ l) = ground (
  arith,
  insert_key-swap a b l,
  key_le_total a b,
  key_le_total b a,
  key_le_antisym a b,
  key_le_trans a b x,
  key_le_trans b a x,
  key_le_total a x,
  key_le_total b x,
  key_le_trans a x b,
  key_le_trans b x a,
)

text_of : List Key → String
text_of [] = ""
text_of (k ∷ ks) = concat (key_text k) (text_of ks)

text_of-entries : (vs : List Value) → status_text vs ≡ text_of (map key vs)
unfolding status_text text_of
text_of-entries [] = refl
text_of-entries (v ∷ vs) = ap (concat (key_text (key v))) (text_of-entries vs)

List-Key-set : IsSet (List Key)
List-Key-set = hlevel (IsScalar-prop)

status_text-Perm :
    (vs ws : List Value)
    → Perm vs ws
    → status_text (sort_entries vs) ≡ status_text (sort_entries ws)
unfolding sort_keys
status_text-Perm vs ws p =
    text_of-entries (sort_entries vs)
    ∙ ap text_of (
        sort_keys-entries vs
        ∙ Perm.foldr-eq List-Key-set insert_key insert_key-swap (Perm.map key p) []
        ∙ sym (sort_keys-entries ws))
    ∙ sym (text_of-entries (sort_entries ws))

module _ ⦃p : Platform⦄ ⦃c : Codec⦄ where
  -- Two histories that list the same entries in whatever orders have the same status, entries of one
  -- height and entries without an id included.
  pub compute_status_hash-Perm :
      (vs ws : List Value) → Perm vs ws → compute_status_hash vs ≡ compute_status_hash ws
  unfolding compute_status_hash
  compute_status_hash-Perm [] ws q = ap compute_status_hash (Perm.nil-eq q)
  compute_status_hash-Perm (v ∷ vs) [] q = ap compute_status_hash (Perm.eq-nil q)
  compute_status_hash-Perm (v ∷ vs) (w ∷ ws) q =
      ap (λ t. some (p.hex_encode (c.sha256 (p.as_bytes t)))) (status_text-Perm (v ∷ vs) (w ∷ ws) q)
