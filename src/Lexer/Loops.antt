-- ===== src/Lexer/Loops.antt =====
-- The loops of the lexer end where they are meant to, and keep the line.
use cpp_lox.Prelude.{
  ℕ, zero, suc, ◌+◌, ◌<◌, ◌≤◌, ◌≡◌, ap, ◌∙◌, inl, inr, Bool, true, false, not, ◌&&◌, ◌||◌, List,
  ltb, ◌==◌, arith, length, get_or, Bool-cases,
}
use cpp_lox.Lexer.{
  Iterator, other, is_at_end, peek, blank, skip_comment, skip_whitespace, skip_string, skip_while,
}
use cpp_lox.Lexer.Position.{
  IsAt, Moves, met_space, met_newline, met_comment, met_other, blank-Met, peek-end, peek-at,
  stay-Moves, Moves-chain, advance-Moves, newline-Moves,
}

module _ (source : List ℕ) where
  skip_comment-Moves :
      (fuel : ℕ) (s : Iterator) → IsAt source s → Moves source s (skip_comment source fuel s)
  unfolding skip_comment is_at_end peek
  skip_comment-Moves zero s at = stay-Moves source s at
  skip_comment-Moves (suc fuel) s at =
      elim (Bool-cases (not (is_at_end source s) && not (peek source s == 10))) [
        | inr e ↦ rw (skip_comment, e) (stay-Moves source s at)
        | inl e ↦
            let one = advance-Moves source s at (ground arith) (ground arith) in
            rw (skip_comment, e) (Moves-chain source _ _ _ one (skip_comment-Moves fuel _ one.at))
      ]

  -- a comment that starts is left by one character at least
  skip_comment-advances :
      (fuel : ℕ) (s : Iterator)
      → IsAt source s
      → 0 < fuel
      → s.current < length source
      → get_or source s.current 0 ≡ 47
      → s.current < (skip_comment source fuel s).current
  unfolding skip_comment is_at_end peek
  skip_comment-advances zero s at h k c = absurd (omega arith)
  skip_comment-advances (suc fuel) s at h k c =
      let e : not (is_at_end source s) && not (peek source s == 10) ≡ true = ground arith in
      let one = advance-Moves source s at k (ground arith) in
      rw (skip_comment, e) (omega (arith, (skip_comment-Moves fuel _ one.at).forward))

  -- At the end of the loop there is nothing to skip.
  pub skip_whitespace-Moves :
      (fuel : ℕ) (s : Iterator)
      → IsAt source s
      → length source ≤ s.current + fuel
      → Moves source s (skip_whitespace source fuel s)
        × (blank source (skip_whitespace source fuel s) ≡ other)
  unfolding skip_whitespace
  skip_whitespace-Moves zero s at h = elim (blank-Met source s) [
    | met_space e k n ↦ absurd (omega arith)
    | met_newline e k n ↦ absurd (omega arith)
    | met_comment e k n ↦ absurd (omega arith)
    | met_other e n ↦ (stay-Moves source s at, e)
  ]
  skip_whitespace-Moves (suc fuel) s at h = elim (blank-Met source s) [
    | met_space e k n ↦
        let one = advance-Moves source s at k n in
        let (more, end) = skip_whitespace-Moves fuel _ one.at (omega arith) in
        rw (skip_whitespace, e) (Moves-chain source _ _ _ one more, end)
    | met_newline e k n ↦
        let one = newline-Moves source s at k n in
        let (more, end) = skip_whitespace-Moves fuel _ one.at (omega arith) in
        rw (skip_whitespace, e) (Moves-chain source _ _ _ one more, end)
    | met_comment e k c ↦
        let one = skip_comment-Moves (length source) s at in
        let ahead = skip_comment-advances (length source) s at (omega arith) k c in
        let (more, end) = skip_whitespace-Moves fuel _ one.at (omega (arith, ahead)) in
        rw (skip_whitespace, e) (Moves-chain source _ _ _ one more, end)
    | met_other e n ↦ rw (skip_whitespace, e) (stay-Moves source s at, e)
  ]

  module _ (p : ℕ → Bool) (p0 : p 0 ≡ false) (p10 : p 10 ≡ false) where
    -- a character that satisfies `p` is in the source and ends no line
    inside :
        (s : Iterator)
        → p (peek source s) ≡ true
        → (s.current < length source) × ((get_or source s.current 0 == 10) ≡ false)
    inside s e = elim (Bool-cases (ltb s.current (length source))) [
      | inl k ↦ (
        ground arith,
        elim (Bool-cases (get_or source s.current 0 == 10)) [
          | inl x ↦ absurd (cc (e, p10, ap p (peek-at source s 10 (ground arith) (ground arith))))
          | inr x ↦ x
        ],
      )
      | inr k ↦ absurd (cc (e, p0, ap p (peek-end source s (ground arith))))
    ]

    pub skip_while-Moves :
        (fuel : ℕ) (s : Iterator)
        → IsAt source s
        → length source ≤ s.current + fuel
        → Moves source s (skip_while source p fuel s)
          × (p (peek source (skip_while source p fuel s)) ≡ false)
    unfolding skip_while
    skip_while-Moves zero s at h =
        (stay-Moves source s at, ap p (peek-end source s (omega arith)) ∙ p0)
    skip_while-Moves (suc fuel) s at h = elim (Bool-cases (p (peek source s))) [
      | inr e ↦ rw (skip_while, e) (stay-Moves source s at, e)
      | inl e ↦
          let (k, n) = inside s e in
          let one = advance-Moves source s at k n in
          let (more, end) = skip_while-Moves fuel _ one.at (omega arith) in
          rw (skip_while, e) (Moves-chain source _ _ _ one more, end)
    ]

  pub skip_string-Moves :
      (fuel : ℕ) (s : Iterator)
      → IsAt source s
      → length source ≤ s.current + fuel
      → Moves source s (skip_string source fuel s)
        × ((is_at_end source (skip_string source fuel s)
              || (peek source (skip_string source fuel s) == 34))
            ≡ true)
  unfolding skip_string is_at_end peek
  skip_string-Moves zero s at h = (stay-Moves source s at, ground arith)
  skip_string-Moves (suc fuel) s at h =
      elim (Bool-cases (not (peek source s == 34) && not (is_at_end source s))) [
        | inr e ↦ rw (skip_string, e) (stay-Moves source s at, ground arith)
        | inl e ↦ elim (Bool-cases (peek source s == 10)) [
          | inl n ↦
              let one = newline-Moves source s at (ground arith) (ground arith) in
              let (more, end) = skip_string-Moves fuel _ one.at (omega arith) in
              rw (skip_string, e, n) (Moves-chain source _ _ _ one more, end)
          | inr n ↦
              let one = advance-Moves source s at (ground arith) (ground arith) in
              let (more, end) = skip_string-Moves fuel _ one.at (omega arith) in
              rw (skip_string, e, n) (Moves-chain source _ _ _ one more, end)
        ]
      ]
