-- ===== src/Lexer/Tokens.antt =====
-- The tokens of a source: their number, and the kinds of the words.
use cpp_lox.Prelude.{
  ℕ, zero, suc, ◌+◌, ◌≤◌, ◌≡◌, refl, inl, inr, true, List, [], ◌∷◌, arith, length,
}
use cpp_lox.Token.{Token}
use cpp_lox.Lexer.{Iterator, next, steps, is_end, initial}
use cpp_lox.Lexer.Position.{newlines, IsAt}
use cpp_lox.Lexer.Scan.{next-Scanned}

newlines-zero : (xs : List ℕ) → newlines xs 0 ≡ 0
unfolding newlines
newlines-zero [] = refl
newlines-zero (x ∷ xs) = refl

module _ (source : List ℕ) where
  steps-end :
      (k : ℕ) (s : Iterator)
      → IsAt source s
      → length source ≤ s.current + k
      → (n : ℕ) × (n ≤ k) × (is_end source (steps source n (next source s)) ≡ true)
  unfolding steps is_end
  steps-end zero s at h =
      let w = next-Scanned source s at in
      elim w.ends [
        | inl (e, f, g) ↦ (0, omega arith, ground (arith, f, g))
        | inr lt ↦ absurd (omega (arith, w.after, w.at.bounded))
      ]
  steps-end (suc k) s at h =
      let w = next-Scanned source s at in
      elim w.ends [
        | inl (e, f, g) ↦ (0, omega arith, ground (arith, f, g))
        | inr lt ↦
            let (n, le, end) = steps-end k (next source s) w.at (omega (arith, w.after)) in
            (suc n, omega (arith, le), end)
      ]

  pub initial-IsAt : (token : Token) → IsAt source (initial source token)
  unfolding initial
  initial-IsAt token = record {
    bounded = omega arith;
    counted = omega (arith, newlines-zero source);
  }

  -- The loop over the tokens, from `cbegin()` to `cend()`, ends within one step for each character.
  pub steps-IsEnd :
      (token : Token)
      → (n : ℕ) × (n ≤ length source)
        × (is_end source (steps source n (next source (initial source token))) ≡ true)
  unfolding initial
  steps-IsEnd token =
      steps-end (length source) (initial source token) (initial-IsAt token) (omega arith)
