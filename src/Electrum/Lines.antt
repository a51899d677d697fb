-- ===== src/Electrum/Lines.antt =====
-- src/electrum_server/mod.rs: the lines of a wallet's connection. A buffer is the list of its bytes.
pub mod Cuts
pub mod Drained
use Prim.Native.Char.{code}
use Prim.Native.String
use broadcast_pool.Prelude.{
  ℕ, zero, suc, ◌+◌, ◌-◌, ◌==◌, String, Bool, true, false, ◌&&◌, ◌||◌, Option, none, some, List, [],
  ◌∷◌, ◌++◌, take, drop, if◌then◌else◌, is_some, is_empty, or_else,
}
use broadcast_pool.Json.{Serde}
use broadcast_pool.Electrum.Request.{extract_broadcast_hex, line_looks_like_broadcast}

-- `String::from_utf8_lossy`
pub record Wire : Type 0 where
  pub from_utf8_lossy : List ℕ → String

-- `s.trim_end_matches('\r')`
unfoldable pub trim_end_returns : String → String
trim_end_returns String.[] = ""
trim_end_returns (String.◌∷◌ c s) =
    let rest = trim_end_returns s in
    if (code c == 13) && is_empty rest then "" else String.◌∷◌ c rest

-- Start and end of each line that a newline closes; `i` counts the bytes read.
unfoldable pub line_ranges : ℕ → ℕ → List ℕ → List (ℕ × ℕ)
line_ranges i start [] = []
line_ranges i start (b ∷ bs) =
    let closed = (start, i) ∷ line_ranges (i + 1) (i + 1) bs in
    let longer = line_ranges (i + 1) start bs in if b == 10 then closed else longer

-- `client_buf[s..e]`, and the buffer after `drain(s..=e)`
abbrev pub slice : List ℕ → ℕ × ℕ → List ℕ
slice buf (s, e) = take (e - s) (drop s buf)

abbrev pub drain : List ℕ → ℕ × ℕ → List ℕ
drain buf (s, e) = take s buf ++ drop (e + 1) buf

-- The first range that the test picks, or else the first of all.
unfoldable pub find_range : (ℕ × ℕ → Bool) → List (ℕ × ℕ) → Option (ℕ × ℕ)
find_range test [] = none
find_range test (r ∷ rs) = let rest = find_range test rs in if test r then some r else rest

abbrev pub first_range : List (ℕ × ℕ) → Option (ℕ × ℕ)
first_range [] = none
first_range (r ∷ _) = some r

unfoldable pub pick_range : (ℕ × ℕ → Bool) → List (ℕ × ℕ) → Option (ℕ × ℕ)
unfolding find_range
pick_range test rs = or_else (find_range test rs) (first_range rs)

module _ ⦃j : Serde⦄ ⦃w : Wire⦄ where
  unfoldable pub is_broadcast_line : List ℕ → Bool
  unfolding extract_broadcast_hex line_looks_like_broadcast
  is_broadcast_line bytes =
      let line = w.from_utf8_lossy bytes in
      is_some (extract_broadcast_hex line) || line_looks_like_broadcast line

  -- The line's bytes, its text, and the buffer that is left.
  abbrev pub popped : List ℕ → ℕ × ℕ → List ℕ × String × List ℕ
  popped buf r = (slice buf r, trim_end_returns (w.from_utf8_lossy (slice buf r)), drain buf r)

  unfoldable pub pop_client_line : List ℕ → Option (List ℕ × String × List ℕ)
  unfolding line_ranges pick_range is_broadcast_line trim_end_returns
  pop_client_line buf =
      elim (pick_range (λ r. is_broadcast_line (slice buf r)) (line_ranges 0 0 buf)) [
        | none ↦ none
        | some r ↦ some (popped buf r)
      ]

  -- The loop `while let Some(…) = pop_client_line(…)`: the lines in the order in which they are handled,
  -- and the buffer at its end.
  unfoldable pub pop_all : ℕ → List ℕ → List (List ℕ) × List ℕ
  unfolding pop_client_line
  pop_all zero buf = ([], buf)
  pop_all (suc fuel) buf = elim (pop_client_line buf) [
    | none ↦ ([], buf)
    | some (line, text, rest) ↦ let (lines, left) = pop_all fuel rest in (line ∷ lines, left)
  ]

-- `data.iter().position(…).map(|p| p + 1).unwrap_or(0)`
abbrev message_end : ℕ → List ℕ → ℕ
message_end p [] = 0
message_end p (b ∷ bs) = if (b == 10) || (b == 0) then p + 1 else message_end (p + 1) bs

unfoldable pub find_message_end : List ℕ → ℕ
find_message_end bytes = message_end 0 bytes

-- `trim_end` of bytes
unfoldable pub trim_end_bytes : List ℕ → List ℕ
trim_end_bytes [] = []
trim_end_bytes (b ∷ bs) =
    let rest = trim_end_bytes bs in
    let kept = b ∷ rest in
    elim rest [ [] ↦ if (b == 10) || (b == 13) || (b == 0) then [] else kept | _ ∷ _ ↦ kept ]
