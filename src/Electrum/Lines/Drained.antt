-- ===== src/Electrum/Lines/Drained.antt =====
-- What the lines of src/electrum_server/mod.rs lose: nothing but their newlines.
use broadcast_pool.Prelude.{
  ℕ, zero, suc, ◌+◌, ◌≤◌, ◌==◌, String, Bool, true, false, Option, none, some, List, [], ◌∷◌, ◌++◌,
  length, All, ◌≡◌, ◌⊎◌, inl, inr, refl, sym, ◌∙◌, ap, subst, arith, Option-cases, Bool-cases,
}
use broadcast_pool.Json.{Serde}
use broadcast_pool.Electrum.Lines.{
  Wire, line_ranges, slice, pick_range, pop_client_line, is_broadcast_line, pop_all, popped,
}
use broadcast_pool.Electrum.Lines.Cuts.{
  Cut, NoNewline, AtLineStart, line_ranges-Cut, slice-Cut, drain-Cut, pick_range-Picked,
  first_range-start, length_append,
}

unpicked :
    (test : ℕ × ℕ → Bool) (i start : ℕ) (buf : List ℕ)
    → pick_range test (line_ranges i start buf) ≡ none
    → NoNewline buf
unfolding line_ranges pick_range
unpicked test i start [] e = tt
unpicked test i start (b ∷ bs) e = elim (Bool-cases (b == 10)) [
  | inl t ↦ absurd (ground arith)
  | inr f ↦ (f, unpicked test (i + 1) start bs (rw f at e))
]

module _ ⦃j : Serde⦄ ⦃w : Wire⦄ where
  pop-range :
      (buf line rest : List ℕ) (text : String)
      → pop_client_line buf ≡ some (line, text, rest)
      → (r : ℕ × ℕ) × ((pick_range (λ x. is_broadcast_line (slice buf x)) (line_ranges 0 0 buf)
            ≡ some r)
          × (popped buf r ≡ (line, text, rest)))
  unfolding pop_client_line
  pop-range buf line rest text e =
      elim (Option-cases
        (pick_range (λ x. is_broadcast_line (slice buf x)) (line_ranges 0 0 buf))) [
          | inl n ↦ absurd (ground arith)
          | inr (r, f) ↦ (r, (f, ground arith))
        ]

  cuts : (buf : List ℕ) → All (Cut buf) (line_ranges 0 0 buf)
  cuts buf = line_ranges-Cut buf [] [] buf 0 0 refl refl refl tt (inl refl)

  -- A line that is taken from the buffer is a whole line of it without a newline, and the buffer keeps
  -- what stood before and after; the line is a broadcast, or else it is the first and no line of the
  -- buffer is one.
  pub pop_client_line-Whole :
      (buf line rest : List ℕ) (text : String)
      → pop_client_line buf ≡ some (line, text, rest)
      → (before : List ℕ) × ((after : List ℕ) × ((buf ≡ before ++ (line ++ 10 ∷ after))
            × ((rest ≡ before ++ after)
                × (AtLineStart before
                    × (NoNewline line
                        × ((is_broadcast_line line ≡ true)
                            ⊎ ((before ≡ [])
                                × All
                                    (λ r. is_broadcast_line (slice buf r) ≡ false)
                                    (line_ranges 0 0 buf))))))))
  pop_client_line-Whole buf line rest text e =
      let (r, (picked, made)) = pop-range buf line rest text e in
      let (c, choice) =
        pick_range-Picked (λ x. is_broadcast_line (slice buf x)) (Cut buf) (line_ranges 0 0 buf) r
          (cuts buf) picked in
      let same : c.line ≡ line = sym (slice-Cut buf r c) ∙ ap (λ q. q.0) made in
      (
        c.before,
        (
          c.after,
          (
            c.whole ∙ ap (λ l. c.before ++ (l ++ 10 ∷ c.after)) same,
            (
              ap (λ q. q.2) (sym made) ∙ drain-Cut buf r c,
              (
                c.begins,
                (
                  subst NoNewline same c.closed,
                  elim choice [
                    | inl t ↦ inl (ap is_broadcast_line (ap (λ q. q.0) (sym made)) ∙ t)
                    | inr (nothing, head) ↦
                        inr (empty c.before (c.start ∙ first_range-start 0 0 buf r head), nothing)
                  ],
                ),
              ),
            ),
          ),
        ),
      )
    where
      empty : (xs : List ℕ) → length xs ≡ 0 → xs ≡ []
      empty [] h = refl
      empty (x ∷ xs) h = absurd (omega arith)

  popped-none : (buf : List ℕ) → pop_client_line buf ≡ none → NoNewline buf
  unfolding pop_client_line
  popped-none buf e = unpicked (λ x. is_broadcast_line (slice buf x)) 0 0 buf (ground arith)

  popped-length :
      (buf line rest : List ℕ) (text : String)
      → pop_client_line buf ≡ some (line, text, rest)
      → (length line + 1 + length rest ≡ length buf) × NoNewline line
  popped-length buf line rest text e =
      let (before, (after, (whole, (left, (begins, (closed, choice)))))) =
        pop_client_line-Whole buf line rest text e in
      (
        omega (
          arith,
          ap length whole,
          ap length left,
          length_append before after,
          length_append before (line ++ 10 ∷ after),
          length_append line (10 ∷ after),
        ),
        closed,
      )

  -- The bytes of some lines, a newline for each included.
  abbrev pub bytes_of : List (List ℕ) → ℕ
  bytes_of [] = 0
  bytes_of (line ∷ lines) = length line + 1 + bytes_of lines

  -- The lines that were handled, and what is left, of a buffer.
  abbrev pub Drained : List ℕ → List (List ℕ) × List ℕ → Type 0
  Drained buf out =
      NoNewline out.1 × (All NoNewline out.0 × (bytes_of out.0 + length out.1 ≡ length buf))

  -- The loop over the lines of a buffer ends within as many rounds as the buffer has bytes: then no
  -- newline is left, no handled line holds one, and the lines with a newline each and what is left make
  -- up the length of the buffer.
  pub pop_all-Ends : (fuel : ℕ) (buf : List ℕ) → length buf ≤ fuel → Drained buf (pop_all fuel buf)
  unfolding pop_all
  pop_all-Ends zero [] h = (tt, (tt, refl))
  pop_all-Ends zero (b ∷ bs) h = absurd (omega arith)
  pop_all-Ends (suc fuel) buf h = elim (Option-cases (pop_client_line buf)) [
    | inl n ↦ subst (λ o. Drained buf (round o)) (sym n) (popped-none buf n, (tt, omega arith))
    | inr ((line, text, rest), e) ↦
        let (size, closed) = popped-length buf line rest text e in
        let (clean, (lines, total)) = pop_all-Ends fuel rest (omega (arith, size)) in
        subst (λ o. Drained buf (round o)) (sym e)
          (clean, ((closed, lines), omega (arith, size, total)))
  ]
    where
      round : Option (List ℕ × String × List ℕ) → List (List ℕ) × List ℕ
      round o = elim o [
        | none ↦ ([], buf)
        | some (line, text, rest) ↦ let (lines, left) = pop_all fuel rest in (line ∷ lines, left)
      ]
