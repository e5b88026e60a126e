-- ===== src/HashMap/Tests.antt =====
-- The hash table at concrete keys, which are numbers.
use cpp_lox.Prelude.{
  ℕ, ◌^◌, ◌≡◌, refl, Bool, true, not, Option, none, some, arith, Returns, length, ◌>>=◌, replicate,
}
use cpp_lox.HashMap.NumberKey.{number_key, number_value}
use cpp_lox.HashMap.{
  HashMap, exceeds_one, to_size, units, new, clear, insert, get, contains, assign, erase, find_slot,
  probe, grow, load_limit, new_capacity, rehash, rehash_slot, fill, is_filled, insert_slot, get_ref,
  set_growth_factor,
}
use cpp_lox.HashMap.View.{view}
use cpp_lox.HashMap.Found.{is_some, get-view, contains-view}
use cpp_lox.HashMap.Fill.{Wrote}
use cpp_lox.HashMap.Valid.{IsValid, Grown, grow-Grown}
use cpp_lox.HashMap.Methods.{insert-Wrote, assign-Wrote, erase-Wrote}
use cpp_lox.HashMap.Tuning.{new-IsValid, clear-IsValid, NoGrowth, set_growth_factor-shrinks}
use cpp_lox.HashMap.DefaultKey.{get-erase_default}

abbrev Table : Type 0
Table = HashMap ℕ ℕ

abbrev none_yet : Table
none_yet = new

-- all that a run of the table unfolds
program : Unit {0}
unfolding new clear insert get contains assign erase find_slot probe grow load_limit new_capacity
    to_size rehash rehash_slot fill is_filled insert_slot get_ref replicate
program = tt

-- 5, 133 and 261 share a slot of 128; erasing 5 leaves a tombstone before 133
abbrev session : Option (Bool × Option ℕ × Option ℕ × Option ℕ × ℕ × ℕ)
session = do
  (_, a) ← insert none_yet 5 50
  (_, b) ← insert a 133 51
  (gone, c) ← erase b 5
  five ← get c 5
  other ← get c 133
  d ← assign c 261 52
  last ← get d 261
  some (gone, five, other, last, d.tombstones, d.size)

collisions : session ≡ some (true, none, some 51, some 52, 0, 2)
unfolding program
collisions = refl

-- 128 is in slot 0, and `Key{}`, which is 0, behind it; erasing 128 hides it
abbrev hidden : Option (Option ℕ × Option ℕ)
hidden = do
  (_, a) ← insert none_yet 128 50
  (_, b) ← insert a 0 51
  before ← get b 0
  (_, c) ← erase b 128
  after ← get c 0
  some (before, after)

hidden_key : hidden ≡ some (some 51, none)
unfolding program
hidden_key = refl

abbrev first_insert :
    Returns
      (insert none_yet 5 50)
      λ r. (r.0 ≡ not (is_some (view none_yet.slots 5))) × Wrote none_yet 5 (some 50) r.1
first_insert = insert-Wrote none_yet new-IsValid.0 5 refl 50

abbrev one : Table
one = first_insert.0.1

one-IsValid : IsValid one
one-IsValid = first_insert.2.1.valid

insert-Wrote_example :
    Returns
      (insert one 133 51)
      λ r. (r.0 ≡ not (is_some (view one.slots 133))) × Wrote one 133 (some 51) r.1
insert-Wrote_example = insert-Wrote one one-IsValid 133 refl 51

erase-Wrote_example :
    Returns (erase one 5) λ r. (r.0 ≡ is_some (view one.slots 5)) × Wrote one 5 none r.1
erase-Wrote_example = erase-Wrote one one-IsValid 5 refl

assign-Wrote_example : Returns (assign one 5 7) (Wrote one 5 (some 7))
assign-Wrote_example = assign-Wrote one one-IsValid 5 refl 7

get-view_example : get one 5 ≡ some (view one.slots 5)
get-view_example = get-view one one-IsValid 5 refl

contains-view_example : contains one 6 ≡ some (is_some (view one.slots 6))
contains-view_example = contains-view one one-IsValid 6 refl

grow-Grown_example : Returns (grow one) (Grown one one-IsValid)
grow-Grown_example = grow-Grown one one-IsValid

clear-IsValid_example : IsValid (clear one) × ((q : ℕ) → view (clear one).slots q ≡ none)
clear-IsValid_example = clear-IsValid one one-IsValid

abbrev half : ℕ
half = 2 ^ 52

-- 0.5 is accepted as a growth factor
set_growth_factor-shrinks_example :
    NoGrowth
      (units half)
      (length one.slots)
      (new_capacity (record one { growth_factor = units half }))
unfolding set_growth_factor exceeds_one
set_growth_factor-shrinks_example =
    set_growth_factor-shrinks one (record one { growth_factor = units half }) (units half) refl

abbrev table_of : Option (Bool × Table) → Table
table_of none = none_yet
table_of (some r) = r.1

-- 128 in slot 0 and `Key{}` in slot 1
two : Table
unfolding program
two = table_of (insert none_yet 128 50 >>= λ r. insert r.1 0 51)

get-erase_default_example : (r : Table) × (erase two 128 ≡ some (true, r)) × (get r 0 ≡ some none)
unfolding two
get-erase_default_example = get-erase_default two 128 (omega arith) refl refl
