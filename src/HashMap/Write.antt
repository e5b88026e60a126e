-- ===== src/HashMap/Write.antt =====
-- The writes to a slot array: what they keep of the invariant, and how the reading changes.
use cpp_lox.Prelude.{
  ℕ, zero, suc, ◌<◌, ◌≡◌, ◌≢◌, refl, ap, ◌∙◌, inl, inr, true, false, some, List, [], ◌∷◌, arith,
  ◌==◌, if◌then◌else◌, ==_iff, length, set, get_or-set, subst, length-set, Bool-cases,
}
use cpp_lox.HashMap.Keys.{Key, Default, equal_congr_right}
use cpp_lox.HashMap.{filled, empty, Slot, is_filled, at, new_slot}
use cpp_lox.HashMap.Probe.{State-cases, cell, Occupied, Absent, Located}
use cpp_lox.HashMap.View.{holds, view, view-some, view-set_other}
use cpp_lox.HashMap.Placed.{IsKey, IsPlaced, Reached, absent_holds}

module _ {ℓ} {K V : Type ℓ} ⦃key : Key K⦄ ⦃value : Default V⦄ where
  pub filled-lt : (slots : List (Slot K V)) (i : ℕ) → (at slots i).state ≡ filled → i < length slots
  filled-lt [] i f = cc
  filled-lt (s ∷ slots) zero f = omega arith
  filled-lt (s ∷ slots) (suc i) f = omega (arith, filled-lt slots i f)

  pub Located-lt : (slots : List (Slot K V)) (k : K) (i : ℕ) → Located slots k i → i < length slots
  Located-lt slots k i w = omega arith

  pub holds_free : (s : Slot K V) (q : K) → s.state ≢ filled → holds s q ≡ false
  unfolding is_filled
  holds_free s q ne = elim (State-cases s.state) [
    | inl f ↦ absurd (ne f)
    | inr (inl f) ↦ rw f
    | inr (inr f) ↦ rw f
  ]

  module _ (slots : List (Slot K V)) (i : ℕ) (lt : i < length slots) (new : Slot K V) where
    pub at-set : (j : ℕ) → at (set slots i new) j ≡ (if i == j then new else at slots j)
    at-set j = get_or-set slots i j new new_slot lt

    pub at-set_self : at (set slots i new) i ≡ new
    at-set_self = rw (at-set i) (ground arith)

    pub at-set_ne : (j : ℕ) → j ≢ i → at (set slots i new) j ≡ at slots j
    at-set_ne j ne = rw (at-set j) (ground arith)

    -- A statement about each slot: of the written one, and of the others.
    pub at-set_cases {κ} :
        (P : ℕ → Slot K V → Type κ)
        → P i new
        → ((j : ℕ) → j ≢ i → P j (at slots j))
        → (j : ℕ) → P j (at (set slots i new) j)
    at-set_cases P here there j = elim (Bool-cases (i == j)) [
      | inl e ↦ subst (λ n. P n (at (set slots i new) n)) ((==_iff i j).0 e) (rw at-set_self here)
      | inr e ↦ rw (at-set_ne j (ground arith)) (there j (ground arith))
    ]

    -- a write that leaves no empty slot behind keeps every probe sequence
    pub Occupied-set :
        new.state ≢ empty → (q : K) (d : ℕ) → Occupied slots q d → Occupied (set slots i new) q d
    Occupied-set ne q d occ e h = rw length-set (
        at-set_cases (λ j s. j ≡ cell slots q e → s.state ≢ empty) (λ _. ne)
          (λ j _ p. rw p (occ e h)) (cell slots q e) refl)

    pub Reached-set :
        new.state ≢ empty
        → (j : ℕ) → (at (set slots i new) j).key ≡ (at slots j).key
        → Reached slots j
        → Reached (set slots i new) j
    Reached-set ne j same r = record {
      steps = r.steps;
      steps_lt = rw length-set r.steps_lt;
      place = rw (length-set, same) r.place;
      occupied = rw same (Occupied-set ne (at slots j).key r.steps r.occupied);
    }

  module _ (slots : List (Slot K V)) (placed : IsPlaced slots) (k : K) (v : V) (hk : IsKey k)
      (i : ℕ) (w : Located slots k i) (free : (at slots i).state ≢ filled)
      (absent : Absent slots k) where
    abbrev new : Slot K V
    new = record { key = k; value = v; state = filled }

    lt : i < length slots
    lt = Located-lt slots k i w

    unmatched : (j : ℕ) → (at slots j).state ≡ filled → key.equal (at slots j).key k ≡ false
    unfolding is_filled
    unmatched j f = rw f at (absent_holds slots placed k absent j (filled-lt slots j f))

    lt' : i < length (set slots i new)
    lt' = rw length-set lt

    fill-Reached : Reached (set slots i new) i
    fill-Reached = record {
      steps = w.steps;
      steps_lt = rw length-set w.steps_lt;
      place = rw (length-set, at-set_self slots i lt new) w.place;
      occupied =
          rw (at-set_self slots i lt new)
            (Occupied-set slots i lt new (λ q. cc) k w.steps w.occupied);
    }

    pub fill-IsPlaced : IsPlaced (set slots i new)
    fill-IsPlaced = record {
      blank =
          at-set_cases slots i lt new (λ j s. s.state ≢ filled → s.key ≡ key.default)
            (λ ne. absurd (ne refl)) (λ j _. placed.blank j);
      keyed =
          at-set_cases slots i lt new (λ j s. s.state ≡ filled → IsKey s.key) (λ _. hk)
            (λ j _. placed.keyed j);
      reached = λ j l.
          at-set_cases slots i lt new (λ j s. s.state ≡ filled → Reached (set slots i new) j)
            (λ _. fill-Reached)
            (λ j n g.
              Reached-set slots i lt new (λ q. cc) j
                (ap (λ s. s.key) (at-set_ne slots i lt new j n))
                (placed.reached j (filled-lt slots j g) g))
            j;
      unique =
          at-set_cases slots i lt new
            (λ j s.
              (j' : ℕ)
              → s.state ≡ filled
              → (at (set slots i new) j').state ≡ filled
              → key.equal s.key (at (set slots i new) j').key ≡ true
              → j ≡ j')
            (λ j' f.
              at-set_cases slots i lt new
                (λ j' s. s.state ≡ filled → key.equal k s.key ≡ true → i ≡ j') (λ _ _. refl)
                (λ j n g e. cc (unmatched j g, key.lawful.swap k (at slots j).key)) j')
            (λ j n j' f.
              at-set_cases slots i lt new
                (λ j' s. s.state ≡ filled → key.equal (at slots j).key s.key ≡ true → j ≡ j')
                (λ _ e. cc (unmatched j f)) (λ j' _ g e. placed.unique j j' f g e) j');
    }

    unheld : (q : K) → key.equal k q ≡ true → (j : ℕ) → holds (at slots j) q ≡ false
    unfolding is_filled
    unheld q e j = elim (State-cases (at slots j).state) [
      | inl f ↦ rw (f, ← equal_congr_right (at slots j).key k q e) (unmatched j f)
      | inr (inl f) ↦ rw f
      | inr (inr f) ↦ rw f
    ]

    pub fill-view :
        (q : K) → view (set slots i new) q ≡ (if key.equal k q then some v else view slots q)
    unfolding is_filled
    fill-view q = elim (Bool-cases (key.equal k q)) [
      | inl e ↦ rw e (
          view-some (set slots i new) i q lt' (rw (at-set_self slots i lt new) e)
            (λ j l n. rw (at-set_ne slots i lt new j n) (unheld q e j))
          ∙ ap (λ s. some s.value) (at-set_self slots i lt new))
      | inr e ↦ rw e (view-set_other slots i new q (holds_free (at slots i) q free) e)
    ]
