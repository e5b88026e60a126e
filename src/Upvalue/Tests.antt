-- ===== src/Upvalue/Tests.antt =====
-- A machine with two open upvalues, of the slots 3 and 1 of four.
use cpp_lox.Prelude.{ℕ, ◌≡◌, refl, true, false, List, [], ◌∷◌, ◌==◌, if◌then◌else◌, arith}
use cpp_lox.Object.{nil, boolean}
use cpp_lox.Upvalue.{
  slot_at, own, Memory, Machine, deref, close_upvalues, close_first, is_above, is_slot, find_place,
  link, capture_upvalue,
}
use cpp_lox.Upvalue.Close.{Closed, close_upvalues-Closed}
use cpp_lox.Upvalue.Captured.{Captured, capture_upvalue-Captured}

abbrev memory : Memory
memory a =
    if a == 7
    then record { next = 8; closed = nil; location = slot_at 3 }
    else if a == 8
    then record { next = 0; closed = nil; location = slot_at 1 }
    else record { next = 0; closed = nil; location = own }

abbrev machine : Machine
machine = record {
  evalstack = nil ∷ boolean true ∷ boolean false ∷ boolean true ∷ [];
  memory = memory;
  open_upvalues = 7;
}

abbrev nodes : List (ℕ × ℕ)
nodes = (7, 3) ∷ (8, 1) ∷ []

program : Unit {0}
unfolding close_upvalues close_first deref is_above is_slot find_place link capture_upvalue
program = tt

-- the new upvalue stands between the two
linked : ((capture_upvalue 4 2 9 machine).1.memory 7).next ≡ 9
unfolding program
linked = refl

-- a slot that is captured already
shared : (capture_upvalue 4 1 9 machine).0 ≡ 8
unfolding program
shared = refl

closes : (close_upvalues 4 2 machine).open_upvalues ≡ 8
unfolding program
closes = refl

capture_upvalue-Captured_example : Captured 2 9 4 nodes machine (capture_upvalue 4 2 9 machine)
capture_upvalue-Captured_example =
    capture_upvalue-Captured 2 9 4 4 nodes machine (omega arith) (λ e. omega (arith, e))
      (λ j e. cc e)
      (refl, (λ e. omega (arith, e)), refl, (refl, (λ e. omega (arith, e)), refl, refl))
      (omega arith, (omega arith, tt)) (omega arith)

close_upvalues-Closed_example : Closed 2 nodes machine (close_upvalues 4 2 machine)
close_upvalues-Closed_example =
    close_upvalues-Closed 4 2 4 nodes machine
      (refl, (λ e. omega (arith, e)), refl, (refl, (λ e. omega (arith, e)), refl, refl))
      (omega arith, (omega arith, tt)) (omega arith)
