-- ===== src/Gc/Strings.antt =====
-- `remove_unused_strings` takes the unmarked strings out of the pool, and no others.
use cpp_lox.Prelude.{
  ℕ, zero, suc, ◌+◌, ◌<◌, ◌≡◌, refl, ap, subst, ◌∙◌, sym, inl, inr, Bool, true, false, Option, none,
  some, List, [], ◌∷◌, ◌==◌, if◌then◌else◌, arith, length, length-set, set, Bool-cases, Returns,
}
use cpp_lox.HashMap.Keys.{Key, Default}
use cpp_lox.HashMap.{HashMap, Slot, State, filled, empty, tombstone, is_filled, at, new_slot}
use cpp_lox.HashMap.View.{to_nat, view, view_congr}
use cpp_lox.HashMap.Write.{filled-lt, at-set_cases}
use cpp_lox.HashMap.Valid.{IsValid}
use cpp_lox.HashMap.Found.{is_some}
use cpp_lox.HashMap.Fill.{Wrote}
use cpp_lox.HashMap.Methods.{erase-filled}
use cpp_lox.Gc.Sweeping.{remove_from, remove_unused_strings}

filled_of : (s : State) → is_filled s ≡ true → s ≡ filled
unfolding is_filled
filled_of filled e = refl
filled_of empty e = cc e
filled_of tombstone e = cc e

-- what is left of a string of the pool
unfoldable pub marked_only : (ℕ → Bool) → Option ℕ → Option ℕ
marked_only marks none = none
marked_only marks (some a) = if marks a then some a else none

module _ {K : Type 0} ⦃key : Key K⦄ ⦃value : Default ℕ⦄ (marks : ℕ → Bool) where
  marked_all :
      (slots : List (Slot K ℕ)) (q : K)
      → ((j : ℕ) → j < length slots → (at slots j).state ≡ filled → marks (at slots j).value ≡ true)
      → view slots q ≡ marked_only marks (view slots q)
  unfolding view is_filled marked_only
  marked_all [] q h = refl
  marked_all (s ∷ slots) q h = elim (Bool-cases (is_filled s.state)) [
    | inl f ↦ elim (Bool-cases (key.equal s.key q)) [
      | inl e ↦ rw (f, e, h 0 (omega arith) (filled_of s.state f))
      | inr e ↦ rw (f, e) (marked_all slots q (λ j lt. h (suc j) (omega arith)))
    ]
    | inr f ↦ rw f (marked_all slots q (λ j lt. h (suc j) (omega arith)))
  ]

  pub record Kept (pool : HashMap K ℕ) (out : HashMap K ℕ × ℕ) : Type 0 where
    pub valid : IsValid out.0
    pub size : out.0.size + out.1 ≡ pool.size
    pub reads : (q : K) → view out.0.slots q ≡ marked_only marks (view pool.slots q)

  abbrev IsClean : ℕ → HashMap K ℕ → Type 0
  IsClean i pool =
      (j : ℕ) → j < i → (at pool.slots j).state ≡ filled → marks (at pool.slots j).value ≡ true

  next :
      (i : ℕ) (pool : HashMap K ℕ)
      → ((at pool.slots i).state ≡ filled → marks (at pool.slots i).value ≡ true)
      → IsClean i pool
      → IsClean (i + 1) pool
  next i pool h clean j lt = elim (Bool-cases (j == i)) [
    | inl e ↦
        subst (λ x. (at pool.slots x).state ≡ filled → marks (at pool.slots x).value ≡ true)
          (ground arith) h
    | inr n ↦ clean j (ground arith)
  ]

  removed-Kept :
      (pool m : HashMap K ℕ) (k : K) (a : ℕ)
      → marks a ≡ false
      → view pool.slots k ≡ some a
      → Wrote pool k none m
      → (out : HashMap K ℕ × ℕ) → Kept m out
      → Kept pool (out.0, out.1 + 1)
  unfolding marked_only
  removed-Kept pool m k a b held w out kept = record {
    valid = kept.valid;
    size = omega (arith, kept.size, w.size, ap (λ o. to_nat (is_some o)) held);
    reads = λ q. kept.reads q ∙ elim (Bool-cases (key.equal k q)) [
      | inl e ↦ rw (w.reads q, e, ← view_congr pool.slots k q e, held, b)
      | inr e ↦ rw (w.reads q, e)
    ];
  }

  erased-IsClean :
      (i : ℕ) (pool m : HashMap K ℕ)
      → m.slots ≡ set pool.slots i (record (new_slot) { state = tombstone })
      → i < length pool.slots
      → IsClean i pool
      → IsClean (i + 1) m
  erased-IsClean i pool m e lt clean j k =
      subst (λ s. (at s j).state ≡ filled → marks (at s j).value ≡ true) (sym e)
        (at-set_cases pool.slots i lt (record (new_slot) { state = tombstone })
          (λ j s. j < i + 1 → s.state ≡ filled → marks s.value ≡ true) (λ _ h. cc h)
          (λ j n l. clean j (omega arith)) j k)

  loop-Kept :
      (rounds i : ℕ) (pool : HashMap K ℕ)
      → IsValid pool
      → length pool.slots ≡ i + rounds
      → IsClean i pool
      → Returns (remove_from rounds marks i pool) (Kept pool)
  unfolding remove_from is_filled
  loop-Kept zero i pool valid e clean = (
    (pool, 0),
    refl,
    record {
      valid = valid;
      size = omega arith;
      reads = λ q. marked_all pool.slots q (λ j lt. clean j (omega arith));
    },
  )
  loop-Kept (suc rounds) i pool valid e clean =
      let slot = at pool.slots i in
      elim (Bool-cases (is_filled slot.state)) [
        | inr f ↦
            rw (remove_from, f)
              (loop-Kept rounds (i + 1) pool valid (omega arith)
                (next i pool (λ g. absurd (cc (f, ap is_filled g))) clean))
        | inl f ↦ elim (Bool-cases (marks slot.value)) [
          | inl b ↦
              rw (remove_from, f, b)
                (loop-Kept rounds (i + 1) pool valid (omega arith) (next i pool (λ _. b) clean))
          | inr b ↦
              let (m, run, e', held, w) = erase-filled pool valid i (filled_of slot.state f) in
              let (out, run', k) =
                loop-Kept rounds (i + 1) m w.valid
                  (omega (
                    arith,
                    ap length e',
                    length-set pool.slots i (record (new_slot {V = ℕ}) { state = tombstone }),
                  ))
                  (erased-IsClean i pool m e' (filled-lt pool.slots i (filled_of slot.state f))
                    clean) in
              (
                (out.0, out.1 + 1),
                rw (remove_from, f, b, run, run'),
                removed-Kept pool m slot.key slot.value b held w out k,
              )
        ]
      ]

  -- On a valid pool the removal ends in a valid pool that reads as the old one at the marked
  -- strings and as nothing elsewhere; it returns how many entries it took out.
  pub remove_unused_strings-Kept :
      (pool : HashMap K ℕ) → IsValid pool → Returns (remove_unused_strings marks pool) (Kept pool)
  unfolding remove_unused_strings
  remove_unused_strings-Kept pool valid =
      loop-Kept (length pool.slots) 0 pool valid (omega arith) (λ j h. absurd (omega arith))
