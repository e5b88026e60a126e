-- ===== src/HashMap/View.antt =====
-- The abstract reading of a slot array: the value of the first filled slot that holds the key.
use cpp_lox.Prelude.{
  ℕ, zero, suc, ◌+◌, ◌<◌, ◌≤◌, ◌≡◌, ◌≢◌, refl, inl, inr, Bool, true, false, ◌&&◌, Option, none,
  some, List, [], ◌∷◌, arith, if◌then◌else◌, length, set,
}
use cpp_lox.HashMap.Probe.{State-cases}
use cpp_lox.HashMap.Keys.{Key, Default, equal_congr_right}
use cpp_lox.HashMap.{State, filled, empty, tombstone, Slot, is_filled, at}

abbrev pub is_state : State → State → Bool
is_state filled filled = true
is_state empty empty = true
is_state tombstone tombstone = true
is_state _ _ = false

abbrev pub to_nat : Bool → ℕ
to_nat true = 1
to_nat false = 0

to_nat-le-one : (b : Bool) → to_nat b ≤ 1
to_nat-le-one true = omega arith
to_nat-le-one false = omega arith

module _ {ℓ} {K V : Type ℓ} where
  unfoldable pub count_state : State → List (Slot K V) → ℕ
  count_state st [] = 0
  count_state st (s ∷ slots) = to_nat (is_state st s.state) + count_state st slots

  pub count_state-le-length :
      (st : State) (slots : List (Slot K V)) → count_state st slots ≤ length slots
  unfolding count_state
  count_state-le-length st [] = omega arith
  count_state-le-length st (s ∷ slots) =
      omega (arith, count_state-le-length st slots, to_nat-le-one (is_state st s.state))

module _ {ℓ} {K V : Type ℓ} ⦃key : Key K⦄ ⦃value : Default V⦄ where
  abbrev pub holds : Slot K V → K → Bool
  unfolding is_filled
  holds s q = is_filled s.state && key.equal s.key q

  unfoldable pub view : List (Slot K V) → K → Option V
  view [] q = none
  view (s ∷ slots) q = if holds s q then some s.value else view slots q

  pub count-set :
      (st : State) (slots : List (Slot K V)) (i : ℕ) (s : Slot K V)
      → i < length slots
      → count_state st (set slots i s) + to_nat (is_state st (at slots i).state)
        ≡ count_state st slots + to_nat (is_state st s.state)
  unfolding count_state
  count-set st [] i s h = absurd (omega arith)
  count-set st (x ∷ slots) zero s h = omega arith
  count-set st (x ∷ slots) (suc i) s h = omega (arith, count-set st slots i s (omega arith))

  pub count-set_of :
      (st : State) (slots : List (Slot K V)) (i : ℕ) (s : Slot K V) {old new : Bool}
      → i < length slots
      → is_state st (at slots i).state ≡ old
      → is_state st s.state ≡ new
      → count_state st (set slots i s) + to_nat old ≡ count_state st slots + to_nat new
  count-set_of st slots i s lt p q = rw (← p, ← q) (count-set st slots i s lt)

  -- the slots in the three states add up
  pub exists-empty :
      (slots : List (Slot K V))
      → count_state filled slots + count_state tombstone slots < length slots
      → (i : ℕ) × (i < length slots) × ((at slots i).state ≡ empty)
  unfolding count_state
  exists-empty [] h = absurd (omega arith)
  exists-empty (s ∷ slots) h = elim (State-cases s.state) [
    | inr (inl e) ↦ (0, omega arith, e)
    | inl f ↦
        let (i, lt, e) = exists-empty slots (omega (arith, rw f at h)) in (suc i, omega arith, e)
    | inr (inr t) ↦
        let (i, lt, e) = exists-empty slots (omega (arith, rw t at h)) in (suc i, omega arith, e)
  ]

  pub view-none :
      (slots : List (Slot K V)) (q : K)
      → ((i : ℕ) → i < length slots → holds (at slots i) q ≡ false)
      → view slots q ≡ none
  unfolding view is_filled
  view-none [] q h = refl
  view-none (s ∷ slots) q h =
      rw (h 0 (omega arith)) (view-none slots q (λ i lt. h (suc i) (omega arith)))

  pub view-no_filled :
      (slots : List (Slot K V)) (q : K) → count_state filled slots ≡ 0 → view slots q ≡ none
  unfolding view is_filled count_state
  view-no_filled [] q h = refl
  view-no_filled (s ∷ slots) q h = ground (arith, view-no_filled slots q)

  pub view-some :
      (slots : List (Slot K V)) (i : ℕ) (q : K)
      → i < length slots
      → holds (at slots i) q ≡ true
      → ((j : ℕ) → j < length slots → j ≢ i → holds (at slots j) q ≡ false)
      → view slots q ≡ some (at slots i).value
  unfolding view is_filled
  view-some [] i q lt h others = absurd (omega arith)
  view-some (s ∷ slots) zero q lt h others = rw h
  view-some (s ∷ slots) (suc i) q lt h others =
      rw (others 0 (omega arith) (omega arith))
        (view-some slots i q (omega arith) h (λ j l n. others (suc j) (omega arith) (omega arith)))

  pub view-set_other :
      (slots : List (Slot K V)) (i : ℕ) (s : Slot K V) (q : K)
      → holds (at slots i) q ≡ false
      → holds s q ≡ false
      → view (set slots i s) q ≡ view slots q
  unfolding view is_filled
  view-set_other [] i s q old new = refl
  view-set_other (x ∷ slots) zero s q old new = rw (old, new)
  view-set_other (x ∷ slots) (suc i) s q old new = rw (view-set_other slots i s q old new)

  pub view_congr :
      (slots : List (Slot K V)) (p q : K) → key.equal p q ≡ true → view slots p ≡ view slots q
  unfolding view is_filled
  view_congr [] p q e = refl
  view_congr (s ∷ slots) p q e = rw (equal_congr_right s.key p q e, view_congr slots p q e)
