-- ===== src/ArchiveKey/Sessions.antt =====
-- How long the key of src/api/archive_key.rs is there.
use broadcast_pool.Prelude.{
  ℕ, ◌+◌, ◌≤◌, ◌≡◌, refl, ap, ◌∙◌, String, true, false, Option, none, some, List, [], ◌∷◌,
  if◌then◌else◌, leb, str_eq, str_eq_iff, ok, arith, Bool-cases, inl, inr,
}
use broadcast_pool.Platform.{Platform, Decodes}
use broadcast_pool.Db.{Database}
use broadcast_pool.ArchiveKey.{
  Passwords, Accepts, ArchiveKeyStore, ttl, key, is_unlocked, unlock, set_password,
  get_config_value, set_config_value, lookup_config, put_config, archive_salt_key,
  archive_verifier_key,
}

-- What is asked of the store, with its time, once it has been unlocked or locked.
pub data Request : Type 0 where
  use_key peek : ℕ → Request

abbrev pub time_of : Request → ℕ
time_of (use_key t) = t
time_of (peek t) = t

-- The keys that the uses got, in order.
unfoldable pub keys : List Request → ArchiveKeyStore → List (Option (List ℕ))
unfolding key is_unlocked
keys [] s = []
keys (use_key t ∷ rs) s = (key t s).0 ∷ keys rs (key t s).1
keys (peek t ∷ rs) s = keys rs (is_unlocked t s).1

-- The times of the requests from one on do not go back.
abbrev pub Ordered : ℕ → List Request → Type 0
Ordered t [] = Unit
Ordered t (r ∷ rs) = (t ≤ time_of r) × Ordered (time_of r) rs

Ordered-earlier : (t u : ℕ) (rs : List Request) → t ≤ u → Ordered u rs → Ordered t rs
Ordered-earlier t u [] le h = tt
Ordered-earlier t u (r ∷ rs) le h = (omega arith, h.1)

abbrev pub use_times : List Request → List ℕ
use_times [] = []
use_times (use_key t ∷ rs) = t ∷ use_times rs
use_times (peek t ∷ rs) = use_times rs

abbrev nothing : List ℕ → List (Option (List ℕ))
nothing [] = []
nothing (_ ∷ ts) = none ∷ nothing ts

-- What the uses of a key get when it was last touched at `last`: the key while no 15 minutes pass between
-- two touches, and nothing from then on.
abbrev pub granted : ℕ → List ℕ → List ℕ → List (Option (List ℕ))
granted last k [] = []
granted last k (t ∷ ts) = if leb (last + ttl) t then none ∷ nothing ts else some k ∷ granted t k ts

key-peek : (t u : ℕ) (s : ArchiveKeyStore) → t ≤ u → key u (is_unlocked t s).1 ≡ key u s
unfolding key is_unlocked
key-peek t u s le = ground arith

peek-peek :
    (t u : ℕ) (s : ArchiveKeyStore) → t ≤ u → is_unlocked u (is_unlocked t s).1 ≡ is_unlocked u s
unfolding is_unlocked
peek-peek t u s le = ground arith

keys-peek :
    (t : ℕ) (rs : List Request) (s : ArchiveKeyStore)
    → Ordered t rs
    → keys rs (is_unlocked t s).1 ≡ keys rs s
unfolding keys
keys-peek t [] s h = refl
keys-peek t (use_key u ∷ rs) s h = ap (λ r. r.0 ∷ keys rs r.1) (key-peek t u s h.0)
keys-peek t (peek u ∷ rs) s h = ap (λ r. keys rs r.1) (peek-peek t u s h.0)

keys_empty : (rs : List Request) → keys rs (record { cached = none }) ≡ nothing (use_times rs)
unfolding keys key is_unlocked
keys_empty [] = refl
keys_empty (use_key t ∷ rs) = ap (◌∷◌ none) (keys_empty rs)
keys_empty (peek t ∷ rs) = keys_empty rs

abbrev held : ℕ → List ℕ → ArchiveKeyStore
held last k = record { cached = some (record { key = k; expires_at = last + ttl }) }

lasting_key :
    (last : ℕ) (k : List ℕ) (rs : List Request)
    → Ordered last rs
    → keys rs (held last k) ≡ granted last k (use_times rs)
unfolding keys key
lasting_key last k [] h = refl
lasting_key last k (use_key t ∷ rs) h = elim (Bool-cases (leb (last + ttl) t)) [
  | inl late ↦ rw late (ap (◌∷◌ none) (keys_empty rs))
  | inr early ↦ rw early (ap (◌∷◌ (some k)) (lasting_key t k rs h.1))
]
lasting_key last k (peek t ∷ rs) h =
    keys-peek t rs (held last k) h.1 ∙ lasting_key last k rs (Ordered-earlier last t rs h.0 h.1)

lookup-put_other :
    (k j v : String) (m : List (String × String))
    → str_eq j k ≡ false
    → lookup_config k (put_config j v m) ≡ lookup_config k m
unfolding lookup_config put_config
lookup-put_other k j v [] h = ground arith
lookup-put_other k j v ((i, w) ∷ m) h =
    ground (arith, lookup-put_other k j v m h, str_eq_iff i j, str_eq_iff i k, str_eq_iff j k)

lookup-put :
    (k v : String) (m : List (String × String)) → lookup_config k (put_config k v m) ≡ some v
unfolding lookup_config put_config
lookup-put k v [] = ground (arith, str_eq_iff k k)
lookup-put k v ((i, w) ∷ m) = ground (arith, lookup-put k v m, str_eq_iff i k)

module _ ⦃p : Platform⦄ ⦃a : Passwords⦄ (codecs : Decodes p) (laws : Accepts a) where
  unlock-set_password :
      (salt : List ℕ) (password : String) (now : ℕ) (db : Database) (s : ArchiveKeyStore)
      → unlock now password (set_password salt password db) s
        ≡ (ok true, held now (a.derive_key password salt))
  unfolding unlock set_password get_config_value set_config_value
  unlock-set_password salt password now db s =
      let m = put_config archive_salt_key (p.hex_encode salt) db.config_store in
      let v = a.hash_password password salt in
      ground (
        arith,
        lookup-put archive_verifier_key v m,
        lookup-put_other archive_salt_key archive_verifier_key v m,
        lookup-put archive_salt_key (p.hex_encode salt) db.config_store,
        codecs.hex salt,
        laws.right password salt,
      )

  -- With a password hash that accepts the right password: after a password is set and the store unlocked
  -- with it, whatever the store held before, the uses of the key, at times that do not go back, get the
  -- key derived from the password and its salt until 15 minutes have passed since the unlock or the last
  -- use, and nothing from then on; asking whether the store is unlocked changes none of this.
  pub unlock-keys :
      (salt : List ℕ) (password : String) (now : ℕ) (db : Database) (s : ArchiveKeyStore)
      (rs : List Request)
      → Ordered now rs
      → ((unlock now password (set_password salt password db) s).0 ≡ ok true)
        × (keys rs (unlock now password (set_password salt password db) s).1
            ≡ granted now (a.derive_key password salt) (use_times rs))
  unlock-keys salt password now db s rs h =
      let done = unlock-set_password salt password now db s in
      (
        ap (λ r. r.0) done,
        ap (λ r. keys rs r.1) done ∙ lasting_key now (a.derive_key password salt) rs h,
      )
