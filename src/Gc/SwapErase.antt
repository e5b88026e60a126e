-- ===== src/Gc/SwapErase.antt =====
-- Counts and positions in a list of objects, and what `swap_erase` does to them.
use cpp_lox.Prelude.{
  ℕ, zero, suc, ◌+◌, ◌-◌, ◌≤◌, ◌<◌, ◌≡◌, refl, ap, ◌∙◌, sym, inl, inr, List, [], ◌∷◌, ◌==◌,
  if◌then◌else◌, arith, length, get_or, Bool-cases, subst, get_or-set, set, length-set, take,
}
use cpp_lox.Gc.Pointers.{count}
use cpp_lox.Gc.Sweeping.{swap_erase}

abbrev pub at : List ℕ → ℕ → ℕ
at xs i = get_or xs i 0

abbrev pub one_at : ℕ → ℕ → ℕ
one_at a b = if a == b then 1 else 0

pub count-position :
    (a : ℕ) (xs : List ℕ) → 0 < count a xs → (j : ℕ) × (j < length xs) × (at xs j ≡ a)
unfolding count
count-position a [] h = absurd (omega arith)
count-position a (x ∷ xs) h = elim (Bool-cases (a == x)) [
  | inl e ↦ (0, omega arith, ground arith)
  | inr n ↦ let (j, lt, e) = count-position a xs (ground arith) in (suc j, omega arith, e)
]

pub count-at : (xs : List ℕ) (i : ℕ) → i < length xs → 0 < count (at xs i) xs
unfolding count
count-at [] i h = absurd (omega arith)
count-at (x ∷ xs) zero h = ground arith
count-at (x ∷ xs) (suc i) h = ground (arith, count-at xs i)

pub count-two :
    (xs : List ℕ) (i j : ℕ) → i < j → j < length xs → at xs i ≡ at xs j → 1 < count (at xs i) xs
unfolding count
count-two [] i j h k e = absurd (omega arith)
count-two (x ∷ xs) i zero h k e = absurd (omega arith)
count-two (x ∷ xs) zero (suc j) h k e =
    let seen : 0 < count x xs = subst (λ y. 0 < count y xs) (sym e) (count-at xs j (omega arith)) in
    ground (arith, seen)
count-two (x ∷ xs) (suc i) (suc j) h k e = ground (arith, count-two xs i j)

count-set :
    (a : ℕ) (xs : List ℕ) (i v : ℕ)
    → i < length xs
    → count a (set xs i v) + one_at a (at xs i) ≡ count a xs + one_at a v
unfolding count
count-set a [] i v h = absurd (omega arith)
count-set a (x ∷ xs) zero v h = ground arith
count-set a (x ∷ xs) (suc i) v h = ground (arith, count-set a xs i v)

count-take :
    (a n : ℕ) (xs : List ℕ)
    → length xs ≡ suc n
    → count a xs ≡ count a (take n xs) + one_at a (at xs n)
unfolding count
count-take a zero [] h = absurd (omega arith)
count-take a zero (x ∷ []) h = ground arith
count-take a zero (x ∷ y ∷ xs) h = absurd (omega arith)
count-take a (suc n) [] h = absurd (omega arith)
count-take a (suc n) (x ∷ xs) h = ground (arith, count-take a n xs)

-- the sum of a weight over a list
unfoldable pub weigh : (ℕ → ℕ) → List ℕ → ℕ
weigh w [] = 0
weigh w (x ∷ xs) = w x + weigh w xs

weigh-set :
    (w : ℕ → ℕ) (xs : List ℕ) (i v : ℕ)
    → i < length xs
    → weigh w (set xs i v) + w (at xs i) ≡ weigh w xs + w v
unfolding weigh
weigh-set w [] i v h = absurd (omega arith)
weigh-set w (x ∷ xs) zero v h = omega arith
weigh-set w (x ∷ xs) (suc i) v h = omega (arith, weigh-set w xs i v)

weigh-take :
    (w : ℕ → ℕ) (n : ℕ) (xs : List ℕ)
    → length xs ≡ suc n
    → weigh w xs ≡ weigh w (take n xs) + w (at xs n)
unfolding weigh
weigh-take w zero [] h = absurd (omega arith)
weigh-take w zero (x ∷ []) h = omega arith
weigh-take w zero (x ∷ y ∷ xs) h = absurd (omega arith)
weigh-take w (suc n) [] h = absurd (omega arith)
weigh-take w (suc n) (x ∷ xs) h = omega (arith, weigh-take w n xs)

length-take : (n : ℕ) (xs : List ℕ) → n ≤ length xs → length (take n xs) ≡ n
length-take zero xs h = refl
length-take (suc n) [] h = absurd (omega arith)
length-take (suc n) (x ∷ xs) h = omega (arith, length-take n xs)

at-take : (n : ℕ) (xs : List ℕ) (j : ℕ) → j < n → at (take n xs) j ≡ at xs j
at-take zero xs j h = absurd (omega arith)
at-take (suc n) [] j h = refl
at-take (suc n) (x ∷ xs) zero h = refl
at-take (suc n) (x ∷ xs) (suc j) h = at-take n xs j (omega arith)

module _ (xs : List ℕ) (i : ℕ) (h : i < length xs) where
  abbrev back : ℕ
  back = length xs - 1

  abbrev moved : List ℕ
  moved = set xs i (at xs back)

  abbrev swapped : List ℕ
  swapped = set moved back (at xs i)

  length-swapped : length swapped ≡ length xs
  length-swapped = length-set moved back (at xs i) ∙ length-set xs i (at xs back)

  back_lt : back < length moved
  back_lt = omega (arith, length-set xs i (at xs back))

  at-moved : (j : ℕ) → at moved j ≡ (if i == j then at xs back else at xs j)
  at-moved j = get_or-set xs i j (at xs back) 0 h

  at-swapped : (j : ℕ) → at swapped j ≡ (if back == j then at xs i else at moved j)
  at-swapped j = get_or-set moved back j (at xs i) 0 back_lt

  pub length-swap_erase : length (swap_erase xs i) + 1 ≡ length xs
  unfolding swap_erase
  length-swap_erase = omega (arith, length-take back swapped (omega (arith, length-swapped)))

  pub at-swap_erase :
      (j : ℕ)
      → j + 1 < length xs
      → at (swap_erase xs i) j ≡ (if i == j then at xs back else at xs j)
  unfolding swap_erase
  at-swap_erase j k =
      at-take back swapped j (omega arith) ∙ ground (arith, at-swapped j, at-moved j)

  pub count-swap_erase : (a : ℕ) → count a (swap_erase xs i) + one_at a (at xs i) ≡ count a xs
  unfolding swap_erase
  count-swap_erase a = ground (
    arith,
    count-take a back swapped (length-swapped ∙ omega arith),
    at-swapped back,
    at-moved back,
    count-set a xs i (at xs back) h,
    count-set a moved back (at xs i) back_lt,
  )

  last-swapped : at swapped back ≡ at xs i
  last-swapped = ground (arith, at-swapped back)

  last-moved : at moved back ≡ at xs back
  last-moved = ground (arith, at-moved back)

  pub weigh-swap_erase : (w : ℕ → ℕ) → weigh w (swap_erase xs i) + w (at xs i) ≡ weigh w xs
  unfolding swap_erase
  weigh-swap_erase w = omega (
    arith,
    weigh-take w back swapped (length-swapped ∙ omega arith),
    ap w last-swapped,
    ap w last-moved,
    weigh-set w xs i (at xs back) h,
    weigh-set w moved back (at xs i) back_lt,
  )
