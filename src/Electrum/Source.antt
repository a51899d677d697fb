-- ===== src/Electrum/Source.antt =====
-- src/electrum_server/mod.rs: which wallet a session belongs to, from what it sent.
pub mod History
use broadcast_pool.Prelude.{
  ℕ, String, Bool, true, false, ◌||◌, not, Option, none, some, List, [], ◌∷◌, if◌then◌else◌, str_eq,
  is_some_and, lower, contains, codes, is_empty, trim,
}
use broadcast_pool.Json.{Serde, Value, get, as_array, as_str, first, and_then}
use broadcast_pool.Electrum.{SessionState}
use broadcast_pool.Electrum.Request.{method_of, batch_items}

unfoldable pub is_version_request : Value → Bool
unfolding method_of
is_version_request item = is_some_and (method_of item) (λ m. str_eq m "server.version")

-- The first parameter, where it is a text.
unfoldable pub client_name : Value → Option String
unfolding get as_array first as_str and_then
client_name item = and_then (and_then (and_then (get "params" item) as_array) first) as_str

unfoldable pub capture_item : Value → SessionState → SessionState
unfolding is_version_request client_name
capture_item item session =
    if is_version_request item
    then record session {
      saw_server_version = true;
      wallet_label = elim (client_name item) [
        | none ↦ session.wallet_label
        | some name ↦ if is_empty name then session.wallet_label else some name
      ];
    }
    else session

unfoldable pub capture_items : List Value → SessionState → SessionState
unfolding capture_item
capture_items [] session = session
capture_items (item ∷ items) session = capture_items items (capture_item item session)

module _ ⦃j : Serde⦄ where
  unfoldable pub capture_wallet_fingerprint : String → SessionState → SessionState
  unfolding trim batch_items capture_items
  capture_wallet_fingerprint line session = elim (j.parse (trim line)) [
    | none ↦ session
    | some v ↦ capture_items (batch_items v) session
  ]

abbrev pub looks_liana : Option String → Bool
looks_liana label = is_some_and label (λ l. contains (codes "liana") (lower (codes l)))

unfoldable pub effective_source : SessionState → String → String
unfolding lower contains
effective_source session listener_label =
    if str_eq listener_label "sparrow"
    then if looks_liana session.wallet_label || not session.saw_server_version
      then "liana"
      else listener_label
    else listener_label
