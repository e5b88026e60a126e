-- ===== src/HashMap.antt =====
-- include/hashmap.hpp: the open addressing hash table behind the string pool, the globals, the
-- fields and methods of objects, and the maps of the language.
-- A slot is denoted by its index, a reference to its value too. `none` is a probe that does not
-- end, `% 0` on a table that has no slots, or a conversion to size_t of a double that has no value
-- there. A factor is a multiple of 2 ^ -53, exact for a double in [0.5, 1]; its product with the slot
-- count is exact where that count is a power of two, as it is with the default factors. The load
-- factor is one from 0 up; NaN, which its setter lets through too, is left out there.
pub mod Keys
pub mod Probe
pub mod View
pub mod Placed
pub mod Write
pub mod Replace
pub mod Rehash
pub mod Valid
pub mod Found
pub mod Fill
pub mod Methods
pub mod Tuning
pub mod DefaultKey
pub mod NumberKey
mod Tests
use cpp_lox.Prelude.{
  ℕ, zero, suc, ◌+◌, ◌-◌, ◌*◌, ◌/◌, ◌%◌, ◌^◌, max, Bool, true, false, Option, none, some, List, [],
  ◌∷◌, ltb, ◌==◌, if◌then◌else◌, length, get_or, set, replicate, ◌>>=◌,
}
use Keys.{Key, Default}

pub data State : Type 0 where
  filled empty tombstone : State

pub record Slot {ℓ} (K V : Type ℓ) : Type ℓ where
  pub key : K
  pub value : V
  pub state : State

-- a growth factor: one from 0 up, one below 0, by how much, or NaN
pub data Factor : Type 0 where
  units below_zero : ℕ → Factor
  not_a_number : Factor

-- `KeyEqual` and `Hash` are the instance `Key K`.
pub record HashMap {ℓ} (K V : Type ℓ) : Type ℓ where
  pub size : ℕ
  pub tombstones : ℕ
  pub max_load_factor : ℕ
  pub growth_factor : Factor
  pub slots : List (Slot K V)

-- 1.0
abbrev pub unit : ℕ
unit = 2 ^ 53

-- 0.65, as the nearest double
abbrev pub default_max_load_factor : ℕ
default_max_load_factor = 5854679515581645

abbrev pub default_growth_factor : Factor
default_growth_factor = units (2 * unit)

abbrev pub min_table_size : ℕ
min_table_size = 128

unfoldable pub is_filled : State → Bool
is_filled filled = true
is_filled _ = false

-- where `find_slot` ends at an empty slot `i`, and what it remembers of slot `i`
abbrev pub last_tombstone : Option ℕ → ℕ → ℕ
last_tombstone none i = i
last_tombstone (some t) i = t

abbrev pub note_tombstone : State → ℕ → Option ℕ → Option ℕ
note_tombstone tombstone i t = some i
note_tombstone _ i t = t

-- `max_load_factor(double)` and `growth_factor(double)`; `none` is the exception
unfoldable pub set_max_load_factor {ℓ} : {K V : Type ℓ} → HashMap K V → ℕ → Option (HashMap K V)
set_max_load_factor m f = if ltb unit f then none else some (record m { max_load_factor = f })

-- `f > 1.0`, which does not hold of a factor below 0 nor of NaN
unfoldable pub exceeds_one : Factor → Bool
exceeds_one (units f) = ltb unit f
exceeds_one (below_zero f) = false
exceeds_one not_a_number = false

unfoldable pub set_growth_factor {ℓ} : {K V : Type ℓ} → HashMap K V → Factor → Option (HashMap K V)
unfolding exceeds_one
set_growth_factor m f = if exceeds_one f then none else some (record m { growth_factor = f })

unfoldable pub new {ℓ} : {K V : Type ℓ} → HashMap K V
new = record {
  size = 0;
  tombstones = 0;
  max_load_factor = default_max_load_factor;
  growth_factor = default_growth_factor;
  slots = [];
}

unfoldable pub clear {ℓ} : {K V : Type ℓ} → HashMap K V → HashMap K V
clear m = record m { size = 0; tombstones = 0; slots = [] }

-- the two products of `grow`
unfoldable pub load_limit {ℓ} : {K V : Type ℓ} → HashMap K V → ℕ
load_limit m = length m.slots * m.max_load_factor / unit

-- The conversion to size_t drops the fraction. A product of -1 or less, and NaN, have no value there.
unfoldable pub to_size : Factor → ℕ → Option ℕ
to_size (units f) n = some (f * n / unit)
to_size (below_zero f) n = if ltb (f * n) unit then some 0 else none
to_size not_a_number n = none

unfoldable pub new_capacity {ℓ} : {K V : Type ℓ} → HashMap K V → Option ℕ
unfolding to_size
new_capacity m = to_size m.growth_factor (length m.slots) >>= λ n. some (max n min_table_size)

module _ {ℓ} {K V : Type ℓ} ⦃key : Key K⦄ ⦃value : Default V⦄ where
  -- `Slot()`
  abbrev pub new_slot : Slot K V
  new_slot = record { key = key.default; value = value.default; state = empty }

  abbrev pub at : List (Slot K V) → ℕ → Slot K V
  at slots i = get_or slots i new_slot

  -- The loop of `find_slot`, on as many rounds as there are slots: after those it only repeats.
  unfoldable pub probe : ℕ → List (Slot K V) → K → ℕ → Option ℕ → Option ℕ
  probe zero slots k i t = none
  probe (suc rounds) slots k i t =
      let slot = at slots i in
      let rest = probe rounds slots k ((i + 1) % length slots) (note_tombstone slot.state i t) in
      if key.equal slot.key k
      then some i
      else elim slot.state [ empty ↦ some (last_tombstone t i) | _ ↦ rest ]

  unfoldable pub find_slot : List (Slot K V) → K → Option ℕ
  find_slot slots k = probe (length slots) slots k (key.hash k % length slots) none

  unfoldable pub rehash_slot : Slot K V → List (Slot K V) → Option (List (Slot K V))
  unfolding is_filled
  rehash_slot slot new_slots =
      if is_filled slot.state
      then (find_slot new_slots slot.key >>= λ i. some (set new_slots i slot))
      else some new_slots

  unfoldable pub rehash : List (Slot K V) → List (Slot K V) → Option (List (Slot K V))
  rehash [] new_slots = some new_slots
  rehash (slot ∷ slots) new_slots = rehash_slot slot new_slots >>= rehash slots

  unfoldable pub grow : HashMap K V → Option (HashMap K V)
  grow m =
      if ltb (load_limit m) (m.size + 1 + m.tombstones)
      then (new_capacity m >>= λ capacity. rehash m.slots (replicate capacity new_slot) >>= λ slots.
          some (record m { slots = slots; tombstones = 0 }))
      else some m

  -- The three branches at the end of `insert` and of `insert_slot`: the map, and whether the key
  -- is new.
  unfoldable pub fill : State → HashMap K V → ℕ → K → V → Bool × HashMap K V
  fill empty m i k v = (
    true,
    record m {
      slots = set m.slots i (record { key = k; value = v; state = filled });
      size = m.size + 1;
    },
  )
  fill tombstone m i k v = (
    true,
    record m {
      slots = set m.slots i (record { key = k; value = v; state = filled });
      size = m.size + 1;
      tombstones = m.tombstones - 1;
    },
  )
  fill filled m i k v =
      (false, record m { slots = set m.slots i (record (at m.slots i) { value = v }) })

  unfoldable pub insert : HashMap K V → K → V → Option (Bool × HashMap K V)
  insert m k v = do
    grown ← grow m
    i ← find_slot grown.slots k
    some (fill (at grown.slots i).state grown i k v)

  -- returns the slot
  unfoldable pub insert_slot : HashMap K V → K → V → Option (ℕ × HashMap K V)
  insert_slot m k v = do
    grown ← grow m
    i ← find_slot grown.slots k
    some (i, (fill (at grown.slots i).state grown i k v).1)

  unfoldable pub get : HashMap K V → K → Option (Option V)
  unfolding is_filled
  get m k =
      if m.size == 0
      then some none
      else (find_slot m.slots k >>= λ i.
          some (if is_filled (at m.slots i).state then some (at m.slots i).value else none))

  -- `get_ref` and `operator[]`, which have the same body
  unfoldable pub get_ref : HashMap K V → K → Option (ℕ × HashMap K V)
  unfolding is_filled
  get_ref m k =
      if m.size == 0
      then insert_slot m k value.default
      else (find_slot m.slots k >>= λ i.
          if is_filled (at m.slots i).state then some (i, m) else insert_slot m k value.default)

  -- `table[key] = value`
  unfoldable pub assign : HashMap K V → K → V → Option (HashMap K V)
  assign m k v = get_ref m k >>= λ r.
      some (record (r.1) { slots = set r.1.slots r.0 (record (at r.1.slots r.0) { value = v }) })

  unfoldable pub contains : HashMap K V → K → Option Bool
  unfolding is_filled
  contains m k =
      if m.size == 0
      then some false
      else (find_slot m.slots k >>= λ i. some (is_filled (at m.slots i).state))

  unfoldable pub erase : HashMap K V → K → Option (Bool × HashMap K V)
  unfolding is_filled
  erase m k =
      if m.size == 0
      then some (false, m)
      else (find_slot m.slots k >>= λ i. some (
          if is_filled (at m.slots i).state
          then (
            true,
            record m {
              slots = set m.slots i (record (new_slot) { state = tombstone });
              tombstones = m.tombstones + 1;
              size = m.size - 1;
            },
          )
          else (false, m)))
