-- ===== src/Electrum/Lines/Cuts.antt =====
-- Where src/electrum_server/mod.rs cuts a line out of a buffer.
use broadcast_pool.Prelude.{
  ℕ, ◌+◌, ◌-◌, ◌==◌, Bool, true, false, none, some, List, [], ◌∷◌, ◌++◌, take, drop, length, All,
  ◌≡◌, ◌⊎◌, inl, inr, refl, sym, ◌∙◌, ap, subst, arith, Bool-cases, Option-cases,
}
use mathlib.Core.Path.{ap₂}
use broadcast_pool.Electrum.Lines.{line_ranges, slice, drain, find_range, first_range, pick_range}

abbrev pub NoNewline : List ℕ → Type 0
NoNewline = All (λ b. b == 10 ≡ false)

-- Nothing, or bytes up to a newline.
abbrev pub AtLineStart : List ℕ → Type 0
AtLineStart before = (before ≡ []) ⊎ ((k : List ℕ) × (before ≡ k ++ 10 ∷ []))

-- The buffer is what stands before the line, the line, its newline, and the rest.
pub record Cut (buf : List ℕ) (r : ℕ × ℕ) : Type 0 where
  pub before : List ℕ
  pub line : List ℕ
  pub after : List ℕ
  pub whole : buf ≡ before ++ (line ++ 10 ∷ after)
  pub start : length before ≡ r.0
  pub stop : length before + length line ≡ r.1
  pub closed : NoNewline line
  pub begins : AtLineStart before

append_assoc : (xs ys zs : List ℕ) → (xs ++ ys) ++ zs ≡ xs ++ (ys ++ zs)
append_assoc [] ys zs = refl
append_assoc (x ∷ xs) ys zs = ap (λ l. x ∷ l) (append_assoc xs ys zs)

pub length_append : (xs ys : List ℕ) → length (xs ++ ys) ≡ length xs + length ys
length_append [] ys = omega arith
length_append (x ∷ xs) ys = omega (arith, length_append xs ys)

NoNewline-snoc : (xs : List ℕ) (b : ℕ) → NoNewline xs → b == 10 ≡ false → NoNewline (xs ++ b ∷ [])
NoNewline-snoc [] b h e = (e, tt)
NoNewline-snoc (x ∷ xs) b h e = (h.0, NoNewline-snoc xs b h.1 e)

pub line_ranges-Cut :
    (buf before line rest : List ℕ) (i start : ℕ)
    → buf ≡ before ++ (line ++ rest)
    → length before ≡ start
    → length before + length line ≡ i
    → NoNewline line
    → AtLineStart before
    → All (Cut buf) (line_ranges i start rest)
unfolding line_ranges
line_ranges-Cut buf before line [] i start w s e n a = tt
line_ranges-Cut buf before line (b ∷ rest) i start w s e n a = elim (Bool-cases (b == 10)) [
  | inl hit ↦
      let here : b ≡ 10 = ground arith in
      rw hit (
        record {
          before = before;
          line = line;
          after = rest;
          whole = rw here at w;
          start = s;
          stop = e;
          closed = n;
          begins = a;
        },
        line_ranges-Cut buf (before ++ (line ++ b ∷ [])) [] rest (i + 1) (i + 1)
            (w
              ∙ ap (λ l. before ++ l) (sym (append_assoc line (b ∷ []) rest))
              ∙ sym (append_assoc before (line ++ b ∷ []) rest))
            (omega (arith, length_append before (line ++ b ∷ []), length_append line (b ∷ [])))
            (omega (arith, length_append before (line ++ b ∷ []), length_append line (b ∷ []))) tt
            (inr (before ++ line, rw here (sym (append_assoc before line (10 ∷ []))))),
      )
  | inr miss ↦ rw miss (
      line_ranges-Cut buf before (line ++ b ∷ []) rest (i + 1) start
        (w ∙ ap (λ l. before ++ l) (sym (append_assoc line (b ∷ []) rest))) s
        (omega (arith, length_append line (b ∷ []))) (NoNewline-snoc line b n miss) a)
]

take-length : (xs ys : List ℕ) → take (length xs) (xs ++ ys) ≡ xs
take-length [] ys = refl
take-length (x ∷ xs) ys = ap (λ l. x ∷ l) (take-length xs ys)

drop-length : (xs ys : List ℕ) → drop (length xs) (xs ++ ys) ≡ ys
drop-length [] ys = refl
drop-length (x ∷ xs) ys = drop-length xs ys

drop-past : (xs ys : List ℕ) (y n : ℕ) → length xs ≡ n → drop (n + 1) (xs ++ y ∷ ys) ≡ ys
drop-past xs ys y n e =
    ap (λ k. drop k (xs ++ y ∷ ys)) (count xs y n e)
    ∙ ap (drop (length (xs ++ y ∷ []))) (sym (append_assoc xs (y ∷ []) ys))
    ∙ drop-length (xs ++ y ∷ []) ys
  where
    count : (xs : List ℕ) (y n : ℕ) → length xs ≡ n → n + 1 ≡ length (xs ++ y ∷ [])
    count xs y n e = omega (arith, e, length_append xs (y ∷ []))

module _ (buf : List ℕ) (r : ℕ × ℕ) (c : Cut buf r) where
  pub slice-Cut : slice buf r ≡ c.line
  slice-Cut =
      let size : r.1 - r.0 ≡ length c.line = omega (arith, c.start, c.stop) in
      rw (c.whole, size, sym c.start, drop-length c.before (c.line ++ 10 ∷ c.after))
        (take-length c.line (10 ∷ c.after))

  pub drain-Cut : drain buf r ≡ c.before ++ c.after
  drain-Cut = ap₂ ◌++◌ kept rest
    where
      kept : take r.0 buf ≡ c.before
      kept = rw (c.whole, sym c.start) (take-length c.before (c.line ++ 10 ∷ c.after))

      rest : drop (r.1 + 1) buf ≡ c.after
      rest =
          ap (drop (r.1 + 1)) (c.whole ∙ sym (append_assoc c.before c.line (10 ∷ c.after)))
          ∙ drop-past (c.before ++ c.line) c.after 10 r.1 (length_append c.before c.line ∙ c.stop)

-- What the choice of a range finds.
find_range-Picked :
    (test : ℕ × ℕ → Bool) (P : ℕ × ℕ → Type 0) (rs : List (ℕ × ℕ)) (r : ℕ × ℕ)
    → All P rs
    → find_range test rs ≡ some r
    → P r × (test r ≡ true)
unfolding find_range
find_range-Picked test P [] r h e = absurd (ground arith)
find_range-Picked test P (x ∷ rs) r h e = elim (Bool-cases (test x)) [
  | inl t ↦ let same : x ≡ r = ground arith in (subst P same h.0, ap test (sym same) ∙ t)
  | inr f ↦ find_range-Picked test P rs r h.1 (rw f at e)
]

find_range-none :
    (test : ℕ × ℕ → Bool) (rs : List (ℕ × ℕ))
    → find_range test rs ≡ none
    → All (λ r. test r ≡ false) rs
unfolding find_range
find_range-none test [] e = tt
find_range-none test (x ∷ rs) e = elim (Bool-cases (test x)) [
  | inl t ↦ absurd (ground arith)
  | inr f ↦ (f, find_range-none test rs (rw f at e))
]

first-All :
    (P : ℕ × ℕ → Type 0) (rs : List (ℕ × ℕ)) (r : ℕ × ℕ) → All P rs → first_range rs ≡ some r → P r
first-All P [] r h e = absurd (ground arith)
first-All P (x ∷ rs) r h e = let same : x ≡ r = ground arith in subst P same h.0

-- A picked range satisfies the test, or else none does, and it is the first.
pub pick_range-Picked :
    (test : ℕ × ℕ → Bool) (P : ℕ × ℕ → Type 0) (rs : List (ℕ × ℕ)) (r : ℕ × ℕ)
    → All P rs
    → pick_range test rs ≡ some r
    → P r × ((test r ≡ true) ⊎ (All (λ x. test x ≡ false) rs × (first_range rs ≡ some r)))
unfolding pick_range
pick_range-Picked test P rs r h e = elim (Option-cases (find_range test rs)) [
  | inl n ↦
      let head : first_range rs ≡ some r = ground arith in
      (first-All P rs r h head, inr (find_range-none test rs n, head))
  | inr (x, f) ↦
      let same : some x ≡ some r = ground arith in
      let (p, t) = find_range-Picked test P rs r h (f ∙ same) in (p, inl t)
]

pub first_range-start :
    (i start : ℕ) (buf : List ℕ) (r : ℕ × ℕ)
    → first_range (line_ranges i start buf) ≡ some r
    → r.0 ≡ start
unfolding line_ranges
first_range-start i start [] r e = absurd (ground arith)
first_range-start i start (b ∷ bs) r e = elim (Bool-cases (b == 10)) [
  | inl t ↦ let same : (start, i) ≡ r = ground arith in ap (λ q. q.0) (sym same)
  | inr f ↦ first_range-start (i + 1) start bs r (rw f at e)
]
