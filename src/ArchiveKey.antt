-- ===== src/ArchiveKey.antt =====
-- src/api/archive_key.rs: the key of the archive, kept in memory for 15 minutes after its last use.
-- `Instant::now()` is an argument, in nanoseconds.
pub mod Sessions
use broadcast_pool.Prelude.{
  ℕ, ◌+◌, ◌*◌, String, Bool, true, false, Option, none, some, List, [], ◌∷◌, if◌then◌else◌, leb,
  str_eq, Result, ok, err, ◌≡◌, is_some,
}
use broadcast_pool.Platform.{Platform}
use broadcast_pool.Models.{second}
use broadcast_pool.Db.{Database}

-- Argon2, as a hash with a salt, a check that may find its verifier malformed, and a key derivation.
pub record Passwords : Type 0 where
  pub hash_password : String → List ℕ → String
  pub verify_password : String → String → Option Bool
  pub derive_key : String → List ℕ → List ℕ

-- What its documentation promises: the right password is accepted.
pub record Accepts (a : Passwords) : Type 0 where
  pub right :
      (password : String) (salt : List ℕ)
      → a.verify_password password (a.hash_password password salt) ≡ some true

abbrev pub archive_salt_key : String
archive_salt_key = "archive_salt"

abbrev pub archive_verifier_key : String
archive_verifier_key = "archive_verifier"

abbrev pub ttl : ℕ
ttl = 15 * 60 * second

-- src/db/mod.rs: a table from key to value.
unfoldable pub lookup_config : String → List (String × String) → Option String
lookup_config key [] = none
lookup_config key ((k, v) ∷ m) = if str_eq k key then some v else lookup_config key m

unfoldable pub put_config : String → String → List (String × String) → List (String × String)
put_config key value [] = (key, value) ∷ []
put_config key value ((k, v) ∷ m) =
    if str_eq k key then (k, value) ∷ m else (k, v) ∷ put_config key value m

unfoldable pub get_config_value : String → Database → Option String
unfolding lookup_config
get_config_value key db = lookup_config key db.config_store

unfoldable pub set_config_value : String → String → Database → Database
unfolding put_config
set_config_value key value db = record db { config_store = put_config key value db.config_store }

pub record CachedKey : Type 0 where
  pub key : List ℕ
  pub expires_at : ℕ

pub record ArchiveKeyStore : Type 0 where
  pub cached : Option CachedKey

module _ ⦃p : Platform⦄ ⦃a : Passwords⦄ where
  unfoldable pub password_is_set : Database → Bool
  password_is_set db = is_some (get_config_value archive_verifier_key db)

  -- The random salt is an argument.
  unfoldable pub set_password : List ℕ → String → Database → Database
  set_password salt password db =
      set_config_value archive_verifier_key (a.hash_password password salt)
        (set_config_value archive_salt_key (p.hex_encode salt) db)

  abbrev cache : ℕ → List ℕ → ArchiveKeyStore → Result Bool × ArchiveKeyStore
  cache now key s =
      (ok true, record s { cached = some (record { key = key; expires_at = now + ttl }) })

  abbrev try_key :
      ℕ → String → Option Bool → List ℕ → ArchiveKeyStore → Result Bool × ArchiveKeyStore
  try_key now password none salt s = (err "invalid archive verifier", s)
  try_key now password (some false) salt s = (ok false, s)
  try_key now password (some true) salt s = cache now (a.derive_key password salt) s

  unfoldable pub unlock : ℕ → String → Database → ArchiveKeyStore → Result Bool × ArchiveKeyStore
  unlock now password db s = elim (get_config_value archive_verifier_key db) [
    | none ↦ (err "archive password is not set", s)
    | some verifier ↦ elim (get_config_value archive_salt_key db) [
      | none ↦ (err "archive salt is missing", s)
      | some salt_hex ↦ elim (p.hex_decode salt_hex) [
        | none ↦ (err "invalid archive salt", s)
        | some salt ↦ try_key now password (a.verify_password password verifier) salt s
      ]
    ]
  ]

-- Reading the key keeps it for another 15 minutes.
unfoldable pub key : ℕ → ArchiveKeyStore → Option (List ℕ) × ArchiveKeyStore
key now s = elim s.cached [
  | none ↦ (none, s)
  | some c ↦
      if leb c.expires_at now
      then (none, record s { cached = none })
      else (some c.key, record s { cached = some (record c { expires_at = now + ttl }) })
]

unfoldable pub lock : ArchiveKeyStore → ArchiveKeyStore
lock s = record s { cached = none }

-- Whether a key is there; that does not keep it longer.
unfoldable pub is_unlocked : ℕ → ArchiveKeyStore → Bool × ArchiveKeyStore
is_unlocked now s = elim s.cached [
  | none ↦ (false, s)
  | some c ↦ if leb c.expires_at now then (false, record s { cached = none }) else (true, s)
]
