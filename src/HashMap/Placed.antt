-- ===== src/HashMap/Placed.antt =====
-- The invariant of a slot array, and the two writes that the operations make: a key put into the
-- free slot that `find_slot` returned, and a slot replaced by one with the same key and state or by
-- a tombstone.
use native.Mathlib.Nat.{add-mod-mod, div-add-mod}
use cpp_lox.Prelude.{
  ℕ, ◌+◌, ◌-◌, ◌%◌, ◌<◌, ◌≡◌, ◌≢◌, ◌∙◌, inl, inr, true, false, List, arith, length, ltb, Bool-cases,
  Returns,
}
use cpp_lox.HashMap.Keys.{Key, Default}
use cpp_lox.HashMap.{filled, tombstone, Slot, is_filled, at, find_slot}
use cpp_lox.HashMap.Probe.{State-cases, cell, Occupied, Absent, Located, find_slot-Located}
use cpp_lox.HashMap.View.{count_state, exists-empty, holds}

wrap : (h i n : ℕ) → i < n → (h + (i + n - h % n) % n) % n ≡ i
wrap h i n lt = rw add-mod-mod (grind (arith, div-add-mod h n))

module _ {ℓ} {K : Type ℓ} ⦃key : Key K⦄ where
  -- a key other than `Key{}`, which the free slots hold
  abbrev pub IsKey : K → Type 0
  IsKey q = key.equal q key.default ≡ false

module _ {ℓ} {K V : Type ℓ} ⦃key : Key K⦄ ⦃value : Default V⦄ where
  pub record Reached (slots : List (Slot K V)) (i : ℕ) : Type 0 where
    pub steps : ℕ
    pub steps_lt : steps < length slots
    pub place : i ≡ cell slots (at slots i).key steps
    pub occupied : Occupied slots (at slots i).key steps

  pub record IsPlaced (slots : List (Slot K V)) : Type ℓ where
    pub blank : (i : ℕ) → (at slots i).state ≢ filled → (at slots i).key ≡ key.default
    pub keyed : (i : ℕ) → (at slots i).state ≡ filled → IsKey (at slots i).key
    pub reached : (i : ℕ) → i < length slots → (at slots i).state ≡ filled → Reached slots i
    pub unique :
        (i j : ℕ)
        → (at slots i).state ≡ filled
        → (at slots j).state ≡ filled
        → key.equal (at slots i).key (at slots j).key ≡ true
        → i ≡ j

  cell_congr :
      (slots : List (Slot K V)) (p q : K) (d : ℕ)
      → key.equal p q ≡ true
      → cell slots p d ≡ cell slots q d
  cell_congr slots p q d e = rw (key.lawful.hash_same p q e)

  module _ (slots : List (Slot K V)) (placed : IsPlaced slots) (k : K) where
    -- a slot that holds the key, which is no `Key{}`, is filled
    pub filled_of_match :
        (i : ℕ) → IsKey k → key.equal (at slots i).key k ≡ true → (at slots i).state ≡ filled
    filled_of_match i hk e = elim (State-cases (at slots i).state) [
      | inl f ↦ f
      | inr (inl f) ↦ absurd (clash (λ q. cc))
      | inr (inr f) ↦ absurd (clash (λ q. cc))
    ]
      where
        clash : (at slots i).state ≢ filled → ⊥
        clash ne = cc (rw (placed.blank i ne) at e, key.lawful.swap k key.default)

    clash_before :
        (a : Absent slots k) (i : ℕ)
        → i < length slots
        → (at slots i).state ≡ filled
        → key.equal (at slots i).key k ≡ true
        → ⊥
    clash_before a i lt f e =
        let r = placed.reached i lt f in
        let here = r.place ∙ cell_congr slots (at slots i).key k r.steps e in
        let stop = cell_congr slots (at slots i).key k a.stop e in
        elim (Bool-cases (ltb a.stop r.steps)) [
          | inl before ↦ r.occupied a.stop (ground arith) (rw stop a.stop_empty)
          | inr after ↦ cc (a.unmatched r.steps (ground arith), rw here at e)
        ]

    pub absent_holds : Absent slots k → (i : ℕ) → i < length slots → holds (at slots i) k ≡ false
    unfolding is_filled
    absent_holds a i lt = elim (State-cases (at slots i).state) [
      | inl f ↦ elim (Bool-cases (key.equal (at slots i).key k)) [
        | inl e ↦ absurd (clash_before a i lt f e)
        | inr e ↦ rw (f, e)
      ]
      | inr (inl f) ↦ rw f
      | inr (inr f) ↦ rw f
    ]

  -- where an empty slot is left, `find_slot` ends at a slot with the key or at a free one
  pub find_slot_ends :
      (slots : List (Slot K V)) (k : K)
      → count_state filled slots + count_state tombstone slots < length slots
      → Returns (find_slot slots k) (Located slots k)
  find_slot_ends slots k room =
      let (i, lt, e) = exists-empty slots room in
      find_slot-Located slots k ((i + length slots - key.hash k % length slots) % length slots)
        (omega arith) (rw (wrap (key.hash k) i (length slots) lt) e)
