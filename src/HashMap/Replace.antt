-- ===== src/HashMap/Replace.antt =====
-- The writes of a new value into a filled slot, and of a tombstone over one.
use cpp_lox.Prelude.{
  ℕ, ◌<◌, ◌≡◌, ◌≢◌, refl, ap, ◌∙◌, inl, inr, true, false, none, some, List, if◌then◌else◌, length,
  set, length-set, Bool-cases,
}
use cpp_lox.HashMap.Keys.{Key, Default, equal_congr_left, equal_congr_right}
use cpp_lox.HashMap.{filled, tombstone, Slot, is_filled, at, new_slot}
use cpp_lox.HashMap.Probe.{State-cases}
use cpp_lox.HashMap.View.{holds, view, view-none, view-some, view-set_other}
use cpp_lox.HashMap.Placed.{IsKey, IsPlaced, Reached}
use cpp_lox.HashMap.Write.{filled-lt, at-set_self, at-set_ne, at-set_cases, Reached-set}

tombstone_ne : tombstone ≡ filled → ⊥
tombstone_ne e = cc

module _ {ℓ} {K V : Type ℓ} ⦃key : Key K⦄ ⦃value : Default V⦄ where
  -- no other slot holds a key that a filled slot holds
  pub alone :
      (slots : List (Slot K V)) (i : ℕ) (q : K)
      → IsPlaced slots
      → (at slots i).state ≡ filled
      → key.equal (at slots i).key q ≡ true
      → (j : ℕ) → j ≢ i
      → holds (at slots j) q ≡ false
  unfolding is_filled
  alone slots i q placed f e j n = elim (State-cases (at slots j).state) [
    | inl g ↦ elim (Bool-cases (key.equal (at slots j).key q)) [
      | inl e' ↦ absurd (
          n (
            placed.unique j i g f (
              rw (← equal_congr_right (at slots j).key q (at slots i).key (rw key.lawful.swap e))
                e')))
      | inr e' ↦ rw (g, e')
    ]
    | inr (inl g) ↦ rw g
    | inr (inr g) ↦ rw g
  ]

  -- a slot replaced by one of the same state and key keeps the invariant
  module _ (slots : List (Slot K V)) (placed : IsPlaced slots) (i : ℕ) (lt : i < length slots)
      (f : (at slots i).state ≡ filled) (v : V) where
    abbrev updated : Slot K V
    updated = record (at slots i) { value = v }

    same :
        (j : ℕ)
        → ((at (set slots i updated) j).state ≡ (at slots j).state)
          × ((at (set slots i updated) j).key ≡ (at slots j).key)
    same =
        at-set_cases slots i lt updated
          (λ j s. (s.state ≡ (at slots j).state) × (s.key ≡ (at slots j).key)) (refl, refl)
          (λ j _. (refl, refl))

    pub update-IsPlaced : IsPlaced (set slots i updated)
    update-IsPlaced = record {
      blank = λ j. rw ((same j).0, (same j).1) (placed.blank j);
      keyed = λ j. rw ((same j).0, (same j).1) (placed.keyed j);
      reached = λ j l g.
          Reached-set slots i lt updated (λ q. cc) j (same j).1
            (placed.reached j (rw length-set at l) (rw (same j).0 at g));
      unique = λ j j'. rw ((same j).0, (same j).1, (same j').0, (same j').1) (placed.unique j j');
    }

    pub update-view :
        (k q : K)
        → key.equal (at slots i).key k ≡ true
        → view (set slots i updated) q ≡ (if key.equal k q then some v else view slots q)
    unfolding is_filled
    update-view k q e = elim (Bool-cases (key.equal k q)) [
      | inl h ↦
          let here = equal_congr_left (at slots i).key k q e ∙ h in
          rw h (
            view-some (set slots i updated) i q (rw length-set lt)
              (rw (at-set_self slots i lt updated, f) here)
              (λ j l n. rw (at-set_ne slots i lt updated j n) (alone slots i q placed f here j n))
            ∙ ap (λ s. some s.value) (at-set_self slots i lt updated))
      | inr h ↦
          let here = equal_congr_left (at slots i).key k q e ∙ h in
          rw h (view-set_other slots i updated q (rw (f, here)) (rw (f, here)))
    ]

  -- a filled slot turned into a tombstone
  module _ (slots : List (Slot K V)) (placed : IsPlaced slots) (i : ℕ) (lt : i < length slots)
      (f : (at slots i).state ≡ filled) where
    abbrev erased : Slot K V
    erased = record (new_slot) { state = tombstone }

    pub erase-IsPlaced : IsPlaced (set slots i erased)
    erase-IsPlaced = record {
      blank =
          at-set_cases slots i lt erased (λ j s. s.state ≢ filled → s.key ≡ key.default) (λ _. refl)
            (λ j _. placed.blank j);
      keyed =
          at-set_cases slots i lt erased (λ j s. s.state ≡ filled → IsKey s.key)
            (λ g. absurd (tombstone_ne g)) (λ j _. placed.keyed j);
      reached = λ j l.
          at-set_cases slots i lt erased (λ j s. s.state ≡ filled → Reached (set slots i erased) j)
            (λ g. absurd (tombstone_ne g))
            (λ j n g.
              Reached-set slots i lt erased (λ q. cc) j
                (ap (λ s. s.key) (at-set_ne slots i lt erased j n))
                (placed.reached j (filled-lt slots j g) g))
            j;
      unique =
          at-set_cases slots i lt erased
            (λ j s.
              (j' : ℕ)
              → s.state ≡ filled
              → (at (set slots i erased) j').state ≡ filled
              → key.equal s.key (at (set slots i erased) j').key ≡ true
              → j ≡ j')
            (λ _ g. absurd (tombstone_ne g))
            (λ j n j' g.
              at-set_cases slots i lt erased
                (λ j' s. s.state ≡ filled → key.equal (at slots j).key s.key ≡ true → j ≡ j')
                (λ h. absurd (tombstone_ne h)) (λ j' _ h e. placed.unique j j' g h e) j');
    }

    pub erase-view :
        (k q : K)
        → key.equal (at slots i).key k ≡ true
        → view (set slots i erased) q ≡ (if key.equal k q then none else view slots q)
    unfolding is_filled
    erase-view k q e = elim (Bool-cases (key.equal k q)) [
      | inl h ↦
          let here = equal_congr_left (at slots i).key k q e ∙ h in
          rw h (
            view-none (set slots i erased) q (λ j l.
              at-set_cases slots i lt erased (λ _ s. holds s q ≡ false) refl
                (alone slots i q placed f here) j))
      | inr h ↦
          let here = equal_congr_left (at slots i).key k q e ∙ h in
          rw h (view-set_other slots i erased q (rw (f, here)) refl)
    ]
