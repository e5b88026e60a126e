-- ===== src/Upvalue.antt =====
-- src/vm/vm.cpp: `capture_upvalue` and `close_upvalues`, on the list of the open upvalues that the
-- machine keeps; include/function.hpp: `ObjectUpvalue`.
-- An upvalue is an address, 0 is `nullptr`, and `memory` is what the addresses hold. A pointer into
-- the stack is the index of a slot. The address that `new_upvalue` gives is an argument, since the
-- allocator chooses it. The loops run on fuel, a unit for each open upvalue.
pub mod Chain
pub mod Close
pub mod Capture
pub mod Captured
mod Tests
use cpp_lox.Prelude.{
  ℕ, zero, suc, Bool, true, false, not, ◌&&◌, ◌||◌, List, ltb, leb, ◌==◌, if◌then◌else◌, length,
  get_or,
}
use cpp_lox.Object.{Value, nil}

-- `location`: a slot of the stack, or the field `closed` of the upvalue itself
pub data Location : Type 0 where
  slot_at : ℕ → Location
  own : Location

pub record Upvalue : Type 0 where
  pub next : ℕ
  pub closed : Value
  pub location : Location

abbrev pub Memory : Type 0
Memory = ℕ → Upvalue

-- a write of the object at `a`
abbrev pub write : Memory → ℕ → Upvalue → Memory
write memory a u x = if x == a then u else memory x

pub record Machine : Type 0 where
  pub evalstack : List Value
  pub memory : Memory
  pub open_upvalues : ℕ

-- `*current->get()`
unfoldable pub deref : Machine → Upvalue → Value
deref s u = elim u.location [ slot_at i ↦ get_or s.evalstack i nil | own ↦ u.closed ]

-- the comparisons of `get()` with a slot: an upvalue that owns its value has no slot
unfoldable pub is_above : Location → ℕ → Bool
is_above (slot_at i) slot = ltb slot i
is_above own slot = false

unfoldable pub is_slot : Location → ℕ → Bool
is_slot (slot_at i) slot = i == slot
is_slot own slot = false

-- the body of the loop of `close_upvalues`
unfoldable pub close_first : Machine → Machine
close_first s =
    let current = s.memory s.open_upvalues in
    record s {
      memory =
          write s.memory s.open_upvalues
            (record current { closed = deref s current; location = own });
      open_upvalues = current.next;
    }

unfoldable pub close_upvalues : ℕ → ℕ → Machine → Machine
close_upvalues zero last s = s
close_upvalues (suc fuel) last s =
    let l = (s.memory s.open_upvalues).location in
    elim (not (s.open_upvalues == 0) && (is_above l last || is_slot l last)) [
      | true ↦ close_upvalues fuel last (close_first s)
      | false ↦ s
    ]

-- the loop of `capture_upvalue`: `prev` and `current` where it ends
unfoldable pub find_place : ℕ → Memory → ℕ → ℕ → ℕ → ℕ × ℕ
find_place zero memory slot prev current = (prev, current)
find_place (suc fuel) memory slot prev current =
    elim (not (current == 0) && is_above (memory current).location slot) [
      | true ↦ find_place fuel memory slot current (memory current).next
      | false ↦ (prev, current)
    ]

-- the new upvalue at `fresh`, linked between `prev` and `current`
unfoldable pub link : Machine → ℕ → ℕ → ℕ → ℕ → Machine
link s slot fresh prev current =
    let made =
      write s.memory fresh (record { next = current; closed = nil; location = slot_at slot }) in
    if prev == 0
    then record s { memory = made; open_upvalues = fresh }
    else record s { memory = write made prev (record (made prev) { next = fresh }) }

unfoldable pub capture_upvalue : ℕ → ℕ → ℕ → Machine → ℕ × Machine
capture_upvalue fuel slot fresh s =
    let (prev, current) = find_place fuel s.memory slot 0 s.open_upvalues in
    if not (current == 0) && is_slot (s.memory current).location slot
    then (current, s)
    else (fresh, link s slot fresh prev current)
