-- ===== src/Electrum/Source/History.antt =====
-- The source of a session (src/electrum_server/mod.rs), from all that its wallet sent.
use broadcast_pool.Prelude.{
  String, Bool, false, ◌||◌, not, Option, none, some, List, [], ◌∷◌, ◌++◌, if◌then◌else◌, str_eq,
  is_empty, ◌≡◌, refl, sym, ◌&&◌, trim, arith, or_else, ◌∙◌, ap,
}
use broadcast_pool.Json.{Serde, Value}
use broadcast_pool.Electrum.{SessionState, new}
use broadcast_pool.Electrum.Source.{
  is_version_request, client_name, capture_item, capture_items, capture_wallet_fingerprint,
  effective_source, looks_liana,
}
use broadcast_pool.Electrum.Request.{batch_items}

-- Some item is a version request.
unfoldable pub any_version : List Value → Bool
any_version [] = false
any_version (v ∷ vs) = is_version_request v || any_version vs

-- The name that an item gives: a version request's, where it is not empty.
unfoldable pub given_name : Value → Option String
given_name v =
    if is_version_request v
    then elim (client_name v) [
      | none ↦ none
      | some name ↦ if is_empty name then none else some name
    ]
    else none

-- The last name that was given.
unfoldable pub last_name : List Value → Option String
unfolding given_name
last_name [] = none
last_name (v ∷ vs) = or_else (last_name vs) (given_name v)

capture_item_label :
    (v : Value) (s : SessionState)
    → (capture_item v s).wallet_label ≡ or_else (given_name v) s.wallet_label
unfolding capture_item given_name
capture_item_label v s = ground arith

capture_item_version :
    (v : Value) (s : SessionState)
    → (capture_item v s).saw_server_version ≡ (is_version_request v || s.saw_server_version)
unfolding capture_item
capture_item_version v s = ground arith

captured :
    (vs : List Value) (s : SessionState)
    → ((capture_items vs s).saw_server_version ≡ (any_version vs || s.saw_server_version))
      × ((capture_items vs s).wallet_label ≡ or_else (last_name vs) s.wallet_label)
unfolding capture_items any_version last_name
captured [] s = (refl, refl)
captured (v ∷ vs) s =
    let rest = captured vs (capture_item v s) in
    (
      ground (arith, rest.0, capture_item_version v s),
      ground (arith, rest.1, capture_item_label v s),
    )

captured-append :
    (vs ws : List Value) (s : SessionState)
    → capture_items (vs ++ ws) s ≡ capture_items ws (capture_items vs s)
unfolding capture_items
captured-append [] ws s = refl
captured-append (v ∷ vs) ws s = captured-append vs ws (capture_item v s)

nothing : (s : SessionState) → s ≡ capture_items [] s
unfolding capture_items
nothing s = refl

module _ ⦃j : Serde⦄ where
  -- A conversation: the fingerprint is taken from each line in turn.
  unfoldable pub capture_lines : List String → SessionState → SessionState
  capture_lines [] s = s
  capture_lines (line ∷ lines) s = capture_lines lines (capture_wallet_fingerprint line s)

  -- What a line holds: the items of a batch one by one.
  unfoldable pub line_items : String → List Value
  unfolding trim
  line_items line = elim (j.parse (trim line)) [ none ↦ [] | some v ↦ batch_items v ]

  unfoldable pub sent : List String → List Value
  unfolding line_items
  sent [] = []
  sent (line ∷ lines) = line_items line ++ sent lines

  line_items-captured :
      (line : String) (s : SessionState)
      → capture_items (line_items line) s ≡ capture_wallet_fingerprint line s
  unfolding line_items capture_wallet_fingerprint capture_items
  line_items-captured line s = go (j.parse (trim line)) refl
    where
      go :
          (o : Option Value)
          → j.parse (trim line) ≡ o
          → capture_items (line_items line) s ≡ capture_wallet_fingerprint line s
      go none e = ground arith
      go (some v) e = ground arith

  capture_lines-sent :
      (lines : List String) (s : SessionState)
      → capture_lines lines s ≡ capture_items (sent lines) s
  unfolding capture_lines sent
  capture_lines-sent [] s = nothing s
  capture_lines-sent (line ∷ lines) s =
      capture_lines-sent lines (capture_wallet_fingerprint line s)
      ∙ ap (capture_items (sent lines)) (sym (line_items-captured line s))
      ∙ sym (captured-append (line_items line) (sent lines) s)

  -- A session's source is its listener's label, except that on the Sparrow port it is "liana" where no
  -- line held a `server.version` request, or where the last name that such requests gave (not empty)
  -- holds "liana" in any case.
  pub effective_source-Sent :
      (lines : List String) (label : String)
      → effective_source (capture_lines lines new) label ≡ (
          if str_eq label "sparrow"
            && (not (any_version (sent lines)) || looks_liana (last_name (sent lines)))
          then "liana"
          else label)
  unfolding effective_source
  effective_source-Sent lines label =
      let e = capture_lines-sent lines new in
      let seen = (captured (sent lines) new).0 in
      let named = (captured (sent lines) new).1 in
      rw (e, seen, named) (go (last_name (sent lines)) (any_version (sent lines)))
    where
      go :
          (o : Option String) (b : Bool)
          → (if str_eq label "sparrow"
              then if looks_liana (or_else o none) || not (b || false) then "liana" else label
              else label)
            ≡ (if str_eq label "sparrow" && (not b || looks_liana o) then "liana" else label)
      go none b = ground arith
      go (some l) b = ground arith
