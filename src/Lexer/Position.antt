-- ===== src/Lexer/Position.antt =====
-- Where an iterator stands: inside the source, with its line counted.
use cpp_lox.Prelude.{
  ℕ, zero, suc, ◌+◌, ◌<◌, ◌≤◌, ◌≡◌, refl, ap, ◌∙◌, inl, inr, true, false, ◌&&◌, ◌||◌, List, [], ◌∷◌,
  ◌==◌, if◌then◌else◌, arith, length, get_or, Bool-cases,
}
use cpp_lox.Lexer.{Iterator, space, newline, comment, other, advance, peek, peek_next, blank}

-- how many of the first `n` characters end a line
unfoldable pub newlines : List ℕ → ℕ → ℕ
newlines [] n = 0
newlines (x ∷ xs) zero = 0
newlines (x ∷ xs) (suc n) = if x == 10 then suc (newlines xs n) else newlines xs n

pub newlines-suc :
    (xs : List ℕ) (n : ℕ)
    → n < length xs
    → newlines xs (n + 1) ≡ newlines xs n + (if get_or xs n 0 == 10 then 1 else 0)
unfolding newlines
newlines-suc [] n h = absurd (omega arith)
newlines-suc (x ∷ []) zero h = ground arith
newlines-suc (x ∷ y ∷ xs) zero h = ground arith
newlines-suc (x ∷ xs) (suc n) h =
    let next : suc n + 1 ≡ suc (n + 1) = omega arith in
    ap (newlines (x ∷ xs)) next ∙ ground (arith, newlines-suc xs n (omega arith))

module _ (source : List ℕ) where
  pub record IsAt (s : Iterator) : Type 0 where
    pub bounded : s.current ≤ length source
    pub counted : s.line ≡ 1 + newlines source s.current

  pub record Moves (s r : Iterator) : Type 0 where
    pub forward : s.current ≤ r.current
    pub start : r.start ≡ s.start
    pub at : IsAt r

  pub stay-Moves : (s : Iterator) → IsAt s → Moves s s
  stay-Moves s h = record { forward = omega arith; start = refl; at = h }

  pub Moves-chain : (s t r : Iterator) → Moves s t → Moves t r → Moves s r
  Moves-chain s t r m n = record {
    forward = omega (arith, m.forward, n.forward);
    start = omega (arith, m.start, n.start);
    at = n.at;
  }

  pub advance-Moves :
      (s : Iterator)
      → IsAt s
      → s.current < length source
      → (get_or source s.current 0 == 10) ≡ false
      → Moves s (advance source s)
  advance-Moves s at h n = record {
    forward = omega arith;
    start = refl;
    at = record {
      bounded = omega arith;
      counted = ground (arith, at.counted, newlines-suc source s.current h);
    };
  }

  pub newline-Moves :
      (s : Iterator)
      → IsAt s
      → s.current < length source
      → (get_or source s.current 0 == 10) ≡ true
      → Moves s (advance source (record s { line = s.line + 1 }))
  newline-Moves s at h n = record {
    forward = omega arith;
    start = refl;
    at = record {
      bounded = omega arith;
      counted = ground (arith, at.counted, newlines-suc source s.current h);
    };
  }

  pub peek-end : (s : Iterator) → length source ≤ s.current → peek source s ≡ 0
  unfolding peek
  peek-end s h = ground arith

  pub peek-at :
      (s : Iterator) (c : ℕ)
      → s.current < length source
      → get_or source s.current 0 ≡ c
      → peek source s ≡ c
  unfolding peek
  peek-at s c h e = ground arith

  -- What a round of `skip_whitespace` meets, with what the character there is.
  pub data Met (s : Iterator) : Type 0 where
    met_space :
        blank source s ≡ space
        → s.current < length source
        → (get_or source s.current 0 == 10) ≡ false
        → Met s
    met_newline :
        blank source s ≡ newline
        → s.current < length source
        → (get_or source s.current 0 == 10) ≡ true
        → Met s
    met_comment :
        blank source s ≡ comment
        → s.current < length source
        → get_or source s.current 0 ≡ 47
        → Met s
    met_other :
        blank source s ≡ other
        → (s.current < length source → (get_or source s.current 0 == 10) ≡ false)
        → Met s

  pub blank-Met : (s : Iterator) → Met s
  unfolding blank peek peek_next
  blank-Met s =
      let ch = peek source s in
      elim (Bool-cases ((ch == 32) || (ch == 9) || (ch == 13))) [
        | inl e ↦ met_space (rw e) (ground arith) (ground arith)
        | inr n ↦ elim (Bool-cases (ch == 10)) [
          | inl e ↦ met_newline (rw (n, e)) (ground arith) (ground arith)
          | inr m ↦ elim (Bool-cases ((ch == 47) && (peek_next source s == 47))) [
            | inl e ↦ met_comment (rw (n, m, e)) (ground arith) (ground arith)
            | inr e ↦ met_other (rw (n, m, e)) (λ h. ground arith)
          ]
        ]
      ]
