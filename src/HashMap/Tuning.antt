-- ===== src/HashMap/Tuning.antt =====
-- The constructor, `clear`, and the setters of the two factors.
use native.Mathlib.Nat.{mul-le-mul_right}
use cpp_lox.Prelude.{
  ℕ, ◌*◌, ◌/◌, ◌≤◌, ◌≡◌, refl, inl, inr, Bool-cases, Option, none, some, arith, length, max, ltb,
  if◌then◌else◌, Returns,
}
use cpp_lox.HashMap.Keys.{Key, Default}
use cpp_lox.HashMap.{
  HashMap, Factor, units, below_zero, not_a_number, exceeds_one, to_size, new, clear, unit,
  min_table_size, set_growth_factor, new_capacity,
}
use cpp_lox.HashMap.Valid.{IsValid, no_slots-IsValid}
use cpp_lox.HashMap.View.{view}

module _ {ℓ} {K V : Type ℓ} ⦃key : Key K⦄ ⦃value : Default V⦄ where
  -- A new table is valid and empty.
  pub new-IsValid :
      IsValid {K = K} {V = V} new × ((q : K) → view {K = K} {V = V} new.slots q ≡ none)
  unfolding new view
  new-IsValid = (no_slots-IsValid _ (omega arith) (omega arith) refl refl refl, λ q. refl)

  -- `clear` leaves a valid table that is empty.
  pub clear-IsValid :
      (m : HashMap K V) → IsValid m → IsValid (clear m) × ((q : K) → view (clear m).slots q ≡ none)
  unfolding clear view
  clear-IsValid m valid = (no_slots-IsValid _ valid.load valid.growth refl refl refl, λ q. refl)

-- what a growth factor of at most 1.0 makes of the number of slots
abbrev pub NoGrowth : Factor → ℕ → Option ℕ → Type 0
NoGrowth (units f) slots capacity = Returns capacity λ n. n ≤ max slots min_table_size
NoGrowth (below_zero f) slots capacity =
    capacity ≡ (if ltb (f * slots) unit then some min_table_size else none)
NoGrowth not_a_number slots capacity = capacity ≡ none

-- No growth factor that the setter accepts lets the table grow past its slots or 128. One from 0 up
-- gives at most that many; one below 0 gives 128, as long as its product with the slots is above -1;
-- below that, and for NaN, the conversion to a size is undefined.
pub set_growth_factor-shrinks {ℓ} :
    {K V : Type ℓ} (m m' : HashMap K V) (f : Factor)
    → set_growth_factor m f ≡ some m'
    → NoGrowth f (length m'.slots) (new_capacity m')
unfolding set_growth_factor exceeds_one new_capacity to_size
set_growth_factor-shrinks m m' (units f) h = elim (Bool-cases (ltb unit f)) [
  | inl e ↦ absurd (cc (rw e at h))
  | inr e ↦
      let set_to : m'.growth_factor ≡ units f = ground arith in
      let small = mul-le-mul_right {m = f} {n = unit} (length m'.slots) (ground arith) in
      rw set_to (max (f * length m'.slots / unit) min_table_size, refl, omega (arith, small))
]
set_growth_factor-shrinks m m' (below_zero f) h =
    let set_to : m'.growth_factor ≡ below_zero f = ground arith in
    elim (Bool-cases (ltb (f * length m'.slots) unit)) [
      | inl e ↦ rw (set_to, e) refl
      | inr e ↦ rw (set_to, e) refl
    ]
set_growth_factor-shrinks m m' not_a_number h =
    let set_to : m'.growth_factor ≡ not_a_number = ground arith in rw set_to refl
