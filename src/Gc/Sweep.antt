-- ===== src/Gc/Sweep.antt =====
-- `sweep` keeps the marked objects, frees the others, and resets the marks.
use cpp_lox.Prelude.{
  ℕ, zero, suc, ◌+◌, ◌-◌, ◌≤◌, ◌<◌, ◌≡◌, ◌≢◌, refl, ap, ◌∙◌, sym, inl, inr, Bool, true, false, List,
  [], ◌∷◌, ltb, ◌==◌, if◌then◌else◌, arith, length, Bool-cases, Returns, subst,
}
use cpp_lox.Gc.{update}
use cpp_lox.Gc.Pointers.{count}
use cpp_lox.Gc.Sweeping.{Swept, sweep_from, sweep, swap_erase}
use cpp_lox.Gc.SwapErase.{
  at, one_at, count-position, count-two, length-swap_erase, at-swap_erase, count-swap_erase, weigh,
  weigh-swap_erase,
}

count-freed : (a x : ℕ) (xs : List ℕ) → count a (x ∷ xs) ≡ count a xs + one_at a x
unfolding count
count-freed a x xs = ground arith

weigh-freed : (w : ℕ → ℕ) (x : ℕ) (xs : List ℕ) → weigh w (x ∷ xs) ≡ weigh w xs + w x
unfolding weigh
weigh-freed w x xs = omega arith

same_at : {x : ℕ} → (x == 0) ≡ true → x ≡ 0
same_at e = ground arith

-- The objects `all` of the allocator and their marks before the sweep.
module _ (all : List ℕ) (marks : ℕ → Bool) where
  -- an object that the loop has passed, with its mark now
  abbrev Passed : Bool → ℕ → Type 0
  Passed mark x = (x ≢ 0) × (marks x ≡ true) × (mark ≡ false)

  -- the loop at index `i`
  record Sweeping (i : ℕ) (s : Swept) : Type 0 where
    total : (a : ℕ) → a ≢ 0 → count a s.objects + count a s.freed ≡ count a all
    weight : (w : ℕ → ℕ) → w 0 ≡ 0 → weigh w s.objects + weigh w s.freed ≡ weigh w all
    once : (a : ℕ) → a ≢ 0 → count a s.objects ≤ 1
    freed : (a : ℕ) → 0 < count a s.freed → (a ≢ 0) × (marks a ≡ false)
    passed :
        (j : ℕ)
        → j < i
        → j < length s.objects
        → Passed (s.is_marked (at s.objects j)) (at s.objects j)
    todo :
        (j : ℕ)
        → i ≤ j
        → j < length s.objects
        → at s.objects j ≢ 0
        → s.is_marked (at s.objects j) ≡ marks (at s.objects j)
    marked : (a : ℕ) → s.is_marked a ≡ true → marks a ≡ true

  pub record Sweeps (s : Swept) : Type 0 where
    pub objects :
        (a : ℕ) → count a s.objects ≡ (if a == 0 then 0 else if marks a then count a all else 0)
    pub freed :
        (a : ℕ) → count a s.freed ≡ (if a == 0 then 0 else if marks a then 0 else count a all)
    pub weight : (w : ℕ → ℕ) → w 0 ≡ 0 → weigh w s.objects + weigh w s.freed ≡ weigh w all
    pub reset : (a : ℕ) → 0 < count a s.objects → s.is_marked a ≡ false
    pub marked : (a : ℕ) → s.is_marked a ≡ true → marks a ≡ true

  start-Sweeping :
      ((a : ℕ) → a ≢ 0 → count a all ≤ 1)
      → Sweeping 0 (record { objects = all; is_marked = marks; freed = [] })
  unfolding count weigh
  start-Sweeping once = record {
    total = λ a n. omega arith;
    weight = λ w z. omega arith;
    once = once;
    freed = λ a h. absurd (omega arith);
    passed = λ j h. absurd (omega arith);
    todo = λ j h k n. refl;
    marked = λ a h. h;
  }

  end-Sweeps : (i : ℕ) (s : Swept) → length s.objects ≤ i → Sweeping i s → Sweeps s
  end-Sweeps i s h v =
      let left : (a : ℕ) → 0 < count a s.objects → Passed (s.is_marked a) a = λ a k.
        let (j, lt, e) = count-position a s.objects k in
        subst (λ x. Passed (s.is_marked x) x) e (v.passed j (omega arith) lt) in
      record {
        objects = λ a. ground (arith, left a, v.freed a, v.total a);
        freed = λ a. ground (arith, left a, v.freed a, v.total a);
        weight = v.weight;
        reset = λ a k. (left a k).2;
        marked = v.marked;
      }

  module _ (i : ℕ) (s : Swept) (h : i < length s.objects) (v : Sweeping i s) where
    -- the object that stands at `j` once the one at `i` is taken away
    moved :
        (j : ℕ)
        → j < length (swap_erase s.objects i)
        → (k : ℕ) × (k < length s.objects)
          × (i ≤ j → i ≤ k)
          × (j < i → k ≡ j)
          × (at (swap_erase s.objects i) j ≡ at s.objects k)
    moved j lt =
        let size = length-swap_erase s.objects i h in
        let e = at-swap_erase s.objects i h j (omega (arith, size)) in
        elim (Bool-cases (i == j)) [
          | inl x ↦ (
            length s.objects - 1,
            omega arith,
            λ _. omega arith,
            λ k. absurd (ground arith),
            ground (arith, e),
          )
          | inr x ↦ (j, omega (arith, size), λ k. k, λ _. refl, ground (arith, e))
        ]

    erase-Sweeping :
        (freed : List ℕ)
        → ((a : ℕ) → a ≢ 0 → count a freed ≡ count a s.freed + one_at a (at s.objects i))
        → ((w : ℕ → ℕ) → w 0 ≡ 0 → weigh w freed ≡ weigh w s.freed + w (at s.objects i))
        → ((a : ℕ) → 0 < count a freed → (a ≢ 0) × (marks a ≡ false))
        → Sweeping i (record s { objects = swap_erase s.objects i; freed = freed })
    erase-Sweeping freed more heavier white = record {
      weight = λ w z. omega (arith, weigh-swap_erase s.objects i h w, v.weight w z, heavier w z);
      total = λ a n. omega (arith, count-swap_erase s.objects i h a, v.total a n, more a n);
      once = λ a n. omega (arith, count-swap_erase s.objects i h a, v.once a n);
      freed = white;
      passed = λ j k lt.
          let (p, plt, _, same, e) = moved j lt in
          subst (λ x. Passed (s.is_marked x) x) (sym e) (v.passed p (omega (arith, same k)) plt);
      todo = λ j k lt.
          let (p, plt, above, _, e) = moved j lt in
          subst (λ x. x ≢ 0 → s.is_marked x ≡ marks x) (sym e) (v.todo p (above k) plt);
      marked = v.marked;
    }

    freed-white :
        at s.objects i ≢ 0
        → s.is_marked (at s.objects i) ≡ false
        → (a : ℕ) → 0 < count a (at s.objects i ∷ s.freed)
        → (a ≢ 0) × (marks a ≡ false)
    unfolding count
    freed-white n b a k = elim (Bool-cases (a == at s.objects i)) [
      | inl e ↦
          subst (λ x. (x ≢ 0) × (marks x ≡ false)) (ground arith)
            (n, sym (v.todo i (omega arith) h n) ∙ b)
      | inr e ↦ v.freed a (ground arith)
    ]

    -- no other object is the one at `i`
    apart :
        (j : ℕ)
        → j < length s.objects
        → j ≢ i
        → at s.objects i ≢ 0
        → (at s.objects j == at s.objects i) ≡ false
    apart j lt n k = elim (Bool-cases (at s.objects j == at s.objects i)) [
      | inr x ↦ x
      | inl x ↦
          let same : at s.objects j ≡ at s.objects i = ground arith in
          elim (Bool-cases (ltb i j)) [
            | inl b ↦ absurd (
                omega (
                  arith,
                  v.once (at s.objects i) k,
                  count-two s.objects i j (ground arith) lt (sym same),
                ))
            | inr b ↦ absurd (
                omega (
                  arith,
                  ap (λ y. count y s.objects) same,
                  v.once (at s.objects i) k,
                  count-two s.objects j i (ground arith) h same,
                ))
          ]
    ]

    pass-Sweeping :
        at s.objects i ≢ 0
        → s.is_marked (at s.objects i) ≡ true
        → Sweeping (i + 1) (record s { is_marked = update s.is_marked (at s.objects i) false })
    pass-Sweeping n e = record {
      total = v.total;
      weight = v.weight;
      once = v.once;
      freed = v.freed;
      passed = λ j k lt. elim (Bool-cases (j == i)) [
        | inl x ↦
            subst
              (λ y.
                Passed (update s.is_marked (at s.objects i) false (at s.objects y))
                  (at s.objects y))
              (ground arith) (n, v.marked (at s.objects i) e, ground arith)
        | inr x ↦ rw (apart j lt (ground arith) n) (v.passed j (ground arith) lt)
      ];
      todo = λ j k lt z. rw (apart j lt (omega arith) n) (v.todo j (omega arith) lt z);
      marked = λ a k. ground (arith, v.marked a);
    }

  loop-Sweeps :
      (rounds i : ℕ) (s : Swept)
      → length s.objects ≤ i + rounds
      → Sweeping i s
      → Returns (sweep_from rounds i s) Sweeps
  unfolding sweep_from
  loop-Sweeps zero i s enough v = (s, ground arith, end-Sweeps i s (omega arith) v)
  loop-Sweeps (suc rounds) i s enough v = elim (Bool-cases (ltb i (length s.objects))) [
    | inr c ↦ (s, rw (sweep_from, c), end-Sweeps i s (ground arith) v)
    | inl c ↦
        let lt : i < length s.objects = ground arith in
        let size = length-swap_erase s.objects i lt in
        elim (Bool-cases (at s.objects i == 0)) [
          | inl z ↦
              rw (sweep_from, c, z)
                (loop-Sweeps rounds i _ (omega (arith, size)) (
                  erase-Sweeping i s lt v s.freed (λ a n. ground arith)
                    (λ w z'. omega (arith, z', ap w (same_at z))) v.freed))
          | inr z ↦ elim (Bool-cases (s.is_marked (at s.objects i))) [
            | inl b ↦
                rw (sweep_from, c, z, b)
                  (loop-Sweeps rounds (i + 1) _ (omega arith)
                    (pass-Sweeping i s lt v (ground arith) b))
            | inr b ↦
                rw (sweep_from, c, z, b)
                  (loop-Sweeps rounds i _ (omega (arith, size)) (
                    erase-Sweeping i s lt v (at s.objects i ∷ s.freed)
                      (λ a n. count-freed a _ s.freed) (λ w z'. weigh-freed w _ s.freed)
                      (freed-white i s lt v (ground arith) b)))
          ]
        ]
  ]

  -- Where no object but the null pointer stands twice in the list, `sweep` ends: the marked objects
  -- are left with their marks reset, the others are freed, and no mark is set.
  pub sweep-Sweeps : ((a : ℕ) → a ≢ 0 → count a all ≤ 1) → Returns (sweep all marks) Sweeps
  unfolding sweep
  sweep-Sweeps once = loop-Sweeps (length all) 0 _ (omega arith) (start-Sweeping once)
