-- ===== src/Examples/Keys.antt =====
-- The archive key at a concrete input, with a password hash that is the password.
use broadcast_pool.Prelude.{
  ◌≡◌, refl, true, some, List, [], ◌∷◌, str_eq, str_eq_refl, ap, ok, arith, none,
}
use broadcast_pool.ArchiveKey.{Passwords, Accepts, ArchiveKeyStore, set_password, unlock}
use broadcast_pool.ArchiveKey.Sessions.{
  Request, use_key, peek, Ordered, keys, granted, use_times, unlock-keys,
}
use broadcast_pool.Examples.Toy.{toy, toy-Decodes}
use broadcast_pool.Examples.World.{db}

instance abbrev plain : Passwords
plain = record {
  hash_password = λ password salt. password;
  verify_password = λ password verifier. some (str_eq password verifier);
  derive_key = λ password salt. salt;
}

plain-Accepts : Accepts plain
plain-Accepts = record { right = λ password salt. ap some (str_eq_refl password) }

abbrev empty_store : ArchiveKeyStore
empty_store = record { cached = none }

-- A use in time, a look after 20 minutes, and a use too late.
abbrev requests : List Request
requests = use_key 500_000_000_000 ∷ peek 1_200_000_000_000 ∷ use_key 1_500_000_000_000 ∷ []

in_order : Ordered 5 requests
in_order = (ground arith, (ground arith, (ground arith, tt)))

keys_example :
    ((unlock 5 "secret" (set_password (1 ∷ 2 ∷ []) "secret" db) empty_store).0 ≡ ok true)
    × (keys requests (unlock 5 "secret" (set_password (1 ∷ 2 ∷ []) "secret" db) empty_store).1
        ≡ granted 5 (1 ∷ 2 ∷ []) (use_times requests))
keys_example =
    unlock-keys toy-Decodes plain-Accepts (1 ∷ 2 ∷ []) "secret" 5 db empty_store requests in_order

late_is_refused : granted 5 (1 ∷ 2 ∷ []) (use_times requests) ≡ some (1 ∷ 2 ∷ []) ∷ none ∷ []
late_is_refused = refl
