-- ===== src/Gc/Marks.antt =====
-- What the marking of a list of pointers does to the marks and to the grey objects.
use cpp_lox.Prelude.{
  ℕ, suc, ◌+◌, ◌≤◌, ◌<◌, ◌≡◌, ◌≢◌, ap, ◌⊎◌, inl, inr, Bool, true, false, List, [], ◌∷◌, ◌==◌,
  if◌then◌else◌, arith, length, Bool-cases,
}
use cpp_lox.Gc.{Marking, mark_object, update}
use cpp_lox.Gc.Pointers.{count, mark_all}

-- how many of a list of objects are not marked
unfoldable pub white : (ℕ → Bool) → List ℕ → ℕ
white f [] = 0
white f (x ∷ xs) = if f x then white f xs else suc (white f xs)

pub white-le-length : (f : ℕ → Bool) (xs : List ℕ) → white f xs ≤ length xs
unfolding white
white-le-length f [] = omega arith
white-le-length f (x ∷ xs) = ground (arith, white-le-length f xs)

pub at_same : (f : ℕ → Bool) (a b : ℕ) → (a == b) ≡ true → f a ≡ f b
at_same f a b e = ap f (ground arith)

white-update_le : (f : ℕ → Bool) (a : ℕ) (xs : List ℕ) → white (update f a true) xs ≤ white f xs
unfolding white
white-update_le f a [] = omega arith
white-update_le f a (x ∷ xs) = ground (arith, white-update_le f a xs)

white-update_lt :
    (f : ℕ → Bool) (a : ℕ) (xs : List ℕ)
    → f a ≡ false
    → 0 < count a xs
    → white (update f a true) xs + 1 ≤ white f xs
unfolding white count
white-update_lt f a [] h k = absurd (omega arith)
white-update_lt f a (x ∷ xs) h k =
    ground (arith, white-update_lt f a xs h, white-update_le f a xs, at_same f a x)

-- `r` is `s` after the pointers `ps` were marked.
pub record Marks (s : Marking) (ps : List ℕ) (r : Marking) : Type 0 where
  pub keeps : (a : ℕ) → s.is_marked a ≡ true → r.is_marked a ≡ true
  pub marks : (a : ℕ) → a ≢ 0 → 0 < count a ps → r.is_marked a ≡ true
  pub origin :
      (a : ℕ) → r.is_marked a ≡ true → (s.is_marked a ≡ true) ⊎ ((a ≢ 0) × (0 < count a ps))
  pub grey :
      (a : ℕ)
      → count a r.grey_objects
        ≡ count a s.grey_objects + (if s.is_marked a then 0 else if r.is_marked a then 1 else 0)
  pub fewer :
      (objects : List ℕ)
      → ((a : ℕ) → a ≢ 0 → 0 < count a ps → 0 < count a objects)
      → white r.is_marked objects + length r.grey_objects
        ≤ white s.is_marked objects + length s.grey_objects

nothing-Marks : (s : Marking) → Marks s [] s
unfolding count
nothing-Marks s = record {
  keeps = λ a h. h;
  marks = λ a n h. absurd (omega arith);
  origin = λ a h. inl h;
  grey = λ a. ground arith;
  fewer = λ objects h. omega arith;
}

mark_object-Marks : (s : Marking) (p : ℕ) → Marks s (p ∷ []) (mark_object s p)
unfolding mark_object count
mark_object-Marks s p = elim (Bool-cases (p == 0)) [
  | inl e ↦ rw e (record {
    keeps = λ a h. h;
    marks = λ a n h. ground arith;
    origin = λ a h. inl h;
    grey = λ a. ground arith;
    fewer = λ objects h. omega arith;
  })
  | inr n ↦ elim (Bool-cases (s.is_marked p)) [
    | inl e ↦
        rw (n, e)
          (record {
            keeps = λ a h. h;
            marks = λ a n h. ground (arith, at_same s.is_marked a p);
            origin = λ a h. inl h;
            grey = λ a. ground arith;
            fewer = λ objects h. omega arith;
          })
    | inr e ↦
        rw (n, e)
          (record {
            keeps = λ a h. ground arith;
            marks = λ a n h. ground arith;
            origin = λ a h. ground (arith, at_same s.is_marked a p);
            grey = λ a. ground (arith, at_same s.is_marked a p);
            fewer = λ objects h. ground (arith, h p, white-update_lt s.is_marked p objects);
          })
  ]
]

Marks-chain :
    (s t r : Marking) (p : ℕ) (ps : List ℕ) → Marks s (p ∷ []) t → Marks t ps r → Marks s (p ∷ ps) r
unfolding count
Marks-chain s t r p ps one rest = record {
  keeps = λ a h. rest.keeps a (one.keeps a h);
  marks = λ a n h. ground (arith, one.marks a n, rest.marks a n, rest.keeps a);
  origin = λ a h. ground (arith, one.origin a, rest.origin a);
  grey = λ a. ground (arith, one.grey a, rest.grey a, one.keeps a, rest.keeps a);
  fewer = λ objects h. ground (arith, one.fewer objects, rest.fewer objects, h);
}

pub mark_all-Marks : (s : Marking) (ps : List ℕ) → Marks s ps (mark_all s ps)
mark_all-Marks s [] = nothing-Marks s
mark_all-Marks s (p ∷ ps) =
    Marks-chain s (mark_object s p) _ p ps (mark_object-Marks s p)
      (mark_all-Marks (mark_object s p) ps)
