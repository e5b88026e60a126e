-- ===== src/HashMap/DefaultKey.antt =====
-- The key `Key{}`: `find_slot` compares keys before it looks at the state, and every empty slot and
-- every tombstone holds that key.
use cpp_lox.Prelude.{
  ℕ, ◌+◌, ◌-◌, ◌%◌, ◌<◌, ◌≡◌, true, false, none, some, arith, length, set, length-set, ◌==◌, List,
  [], ◌∷◌,
}
use cpp_lox.HashMap.Keys.{Key, Default}
use cpp_lox.HashMap.{
  HashMap, filled, tombstone, Slot, at, new_slot, is_filled, probe, find_slot, get, erase,
}
use cpp_lox.HashMap.Write.{filled-lt, at-set_self}

module _ {ℓ} {K V : Type ℓ} ⦃key : Key K⦄ ⦃value : Default V⦄ where
  -- the slot where the probe sequence of `Key{}` starts
  abbrev pub home : HashMap K V → ℕ
  home m = key.hash key.default % length m.slots

  -- a probe that starts at a slot with the key ends there
  find_slot_home :
      (slots : List (Slot K V)) (k : K)
      → 0 < length slots
      → key.equal (at slots (key.hash k % length slots)).key k ≡ true
      → find_slot slots k ≡ some (key.hash k % length slots)
  unfolding find_slot probe
  find_slot_home [] k lt e = absurd (omega arith)
  find_slot_home (s ∷ slots) k lt e = rw e

  -- Where a key that `find_slot` places in that slot is erased, `get` gives nothing for `Key{}`,
  -- whatever later slot holds it.
  pub get-erase_default :
      (m : HashMap K V) (k : K)
      → 1 < m.size
      → find_slot m.slots k ≡ some (home m)
      → (at m.slots (home m)).state ≡ filled
      → (r : HashMap K V) × (erase m k ≡ some (true, r)) × (get r key.default ≡ some none)
  unfolding erase get is_filled
  get-erase_default m k many run f =
      let lt = filled-lt m.slots (home m) f in
      let gone : Slot K V = record (new_slot) { state = tombstone } in
      let seen : (m.size == 0) ≡ false = ground arith in
      let left : (m.size - 1 == 0) ≡ false = ground arith in
      let found : find_slot (set m.slots (home m) gone) key.default ≡ some (home m) =
        rw length-set at (
          find_slot_home (set m.slots (home m) gone) key.default (rw length-set (omega (arith, lt)))
            (rw (length-set, at-set_self m.slots (home m) lt gone)
              (key.lawful.reflexive key.default))) in
      (
        record m {
          slots = set m.slots (home m) gone;
          tombstones = m.tombstones + 1;
          size = m.size - 1;
        },
        rw (seen, run, f),
        rw (left, found, at-set_self m.slots (home m) lt gone),
      )
