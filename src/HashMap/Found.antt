-- ===== src/HashMap/Found.antt =====
-- `find_slot` against the view, and the two reading methods of include/hashmap.hpp.
use cpp_lox.Prelude.{
  ℕ, ◌+◌, ◌<◌, ◌≡◌, ◌≢◌, refl, inl, inr, Bool, true, false, Option, none, some, List, arith, ◌==◌,
  length, Bool-cases,
}
use cpp_lox.HashMap.Keys.{Key, Default}
use cpp_lox.HashMap.{
  HashMap, State, filled, empty, tombstone, Slot, is_filled, at, find_slot, get, contains,
}
use cpp_lox.HashMap.Probe.{Absent, Located}
use cpp_lox.HashMap.View.{
  count_state, count_state-le-length, view, view-none, view-no_filled, view-some,
}
use cpp_lox.HashMap.Placed.{IsKey, IsPlaced, filled_of_match, absent_holds, find_slot_ends}
use cpp_lox.HashMap.Write.{Located-lt}
use cpp_lox.HashMap.Replace.{alone}
use cpp_lox.HashMap.Valid.{IsValid}

abbrev pub is_some {ℓ} : {V : Type ℓ} → Option V → Bool
is_some none = false
is_some (some v) = true

is_filled-ne : (s : State) → s ≢ filled → is_filled s ≡ false
unfolding is_filled
is_filled-ne filled ne = absurd (ne refl)
is_filled-ne empty ne = refl
is_filled-ne tombstone ne = refl

module _ {ℓ} {K V : Type ℓ} ⦃key : Key K⦄ ⦃value : Default V⦄ where
  -- Where a probe of a key ends, and what that says of the view.
  pub data Found (slots : List (Slot K V)) (k : K) (i : ℕ) : Type ℓ where
    here :
        (at slots i).state ≡ filled
        → key.equal (at slots i).key k ≡ true
        → view slots k ≡ some (at slots i).value
        → Found slots k i
    nowhere :
        (at slots i).state ≢ filled
        → is_filled (at slots i).state ≡ false
        → Absent slots k
        → view slots k ≡ none
        → Found slots k i

  Located-Found :
      (slots : List (Slot K V)) (k : K) (i : ℕ)
      → IsPlaced slots
      → IsKey k
      → Located slots k i
      → Found slots k i
  unfolding is_filled
  Located-Found slots k i placed hk w = elim w.outcome [
    | inl e ↦
        let f = filled_of_match slots placed k i hk e in
        here f e (
          view-some slots i k (Located-lt slots k i w) (rw (f, e))
            (λ j _ n. alone slots i k placed f e j n))
    | inr (free, absent) ↦
        nowhere free (is_filled-ne _ free) absent
          (view-none slots k (absent_holds slots placed k absent))
  ]

  pub find_slot-Found :
      (slots : List (Slot K V)) (k : K)
      → IsPlaced slots
      → IsKey k
      → count_state filled slots + count_state tombstone slots < length slots
      → (i : ℕ) × (find_slot slots k ≡ some i) × Located slots k i × Found slots k i
  find_slot-Found slots k placed hk room =
      let (i, run, w) = find_slot_ends slots k room in
      (i, run, w, Located-Found slots k i placed hk w)

  module _ (m : HashMap K V) (valid : IsValid m) where
    pub filled_room :
        (m.size == 0) ≡ false
        → count_state filled m.slots + count_state tombstone m.slots < length m.slots
    filled_room h = ground (arith, count_state-le-length filled m.slots, valid.roomy)

    pub view_nil : (m.size == 0) ≡ true → (q : K) → view m.slots q ≡ none
    view_nil h q = view-no_filled m.slots q (ground (arith, valid.sized))

    -- `get` ends and reads the map.
    pub get-view : (q : K) → IsKey q → get m q ≡ some (view m.slots q)
    unfolding get is_filled
    get-view q hq = elim (Bool-cases (m.size == 0)) [
      | inl z ↦ rw (z, view_nil z q)
      | inr p ↦
          let (i, run, w, found) = find_slot-Found m.slots q valid.placed hq (filled_room p) in
          elim found [ here f e v ↦ rw (p, run, f, v) | nowhere n u a v ↦ rw (p, run, u, v) ]
    ]

    -- `contains` ends and tells whether the map has the key.
    pub contains-view : (q : K) → IsKey q → contains m q ≡ some (is_some (view m.slots q))
    unfolding contains is_filled
    contains-view q hq = elim (Bool-cases (m.size == 0)) [
      | inl z ↦ rw (z, view_nil z q)
      | inr p ↦
          let (i, run, w, found) = find_slot-Found m.slots q valid.placed hq (filled_room p) in
          elim found [ here f e v ↦ rw (p, run, f, v) | nowhere n u a v ↦ rw (p, run, u, v) ]
    ]
