-- ===== src/Execute/Returned.antt =====
-- src/vm/vm.cpp, `execute`: RETURN, against the frame that it leaves.
use cpp_lox.Prelude.{
  List, [], ◌∷◌, ℕ, suc, ◌+◌, ◌-◌, ◌<◌, ◌≤◌, ◌≡◌, refl, false, ap, subst, ◌∙◌, length, get_or, set,
  get_or-set, arith, ◌==◌,
}
use cpp_lox.Object.{Value, nil}
use cpp_lox.Execute.State.{Machine, Run, ok, ◌>>=◌, get_state, put_state, pop_value, current_frame}
use cpp_lox.Execute.Variables.{close_from, leave_frame, run_return, with_upvalues, upvalue_machine}
use cpp_lox.Execute.Runs.{if_false, bind_ok, top_value, pop_value-ok, push_value-ok}
use cpp_lox.Upvalue
use cpp_lox.Upvalue.{Memory, deref, close_upvalues}
use cpp_lox.Upvalue.Chain.{Chain, Descending}
use cpp_lox.Upvalue.Close.{Closed, Released, above, below, close_upvalues-Closed}

-- the machine that RETURN leaves
pub returned_to : Machine → Machine
returned_to s =
    let closed =
      with_upvalues
        (close_upvalues (length s.vm.evalstack) (current_frame s).slots (upvalue_machine s)) s in
    record closed {
      vm = record (s.vm) {
        evalstack = set s.vm.evalstack (current_frame s).slots (top_value s);
        stack_top = suc (current_frame s).slots;
        frame_count = s.vm.frame_count - 1;
      };
    }

leave_frame-inner :
    (v : Value) (s : Machine)
    → 1 < s.vm.frame_count
    → (current_frame s).slots < length s.vm.evalstack
    → leave_frame v s
      ≡ ok tt (record s {
        vm = record (s.vm) {
          evalstack = set s.vm.evalstack (current_frame s).slots v;
          stack_top = suc (current_frame s).slots;
          frame_count = s.vm.frame_count - 1;
        };
      })
unfolding leave_frame ◌>>=◌ get_state put_state current_frame
leave_frame-inner v s frames room =
    ap (λ (r : Run (Unit {0})). r s) (if_false (s.vm.frame_count - 1 == 0) _ _ (ground arith))
    ∙ push_value-ok v _ room

run_return-returned_to :
    (s : Machine)
    → 1 < s.vm.frame_count
    → 0 < s.vm.stack_top
    → (current_frame s).slots < length s.vm.evalstack
    → run_return s ≡ ok tt (returned_to s)
unfolding run_return returned_to current_frame ◌>>=◌ get_state close_from with_upvalues
run_return-returned_to s frames low room =
    bind_ok pop_value _ s _ _ (pop_value-ok s low) ∙ leave_frame-inner (top_value s) _ frames room

-- each of the upvalues reads as the value that its slot has in `evalstack`
abbrev pub ReadsAs : List Value → Upvalue.Machine → List (ℕ × ℕ) → Type 0
ReadsAs evalstack m [] = Unit
ReadsAs evalstack m ((a, i) ∷ nodes) =
    (deref m (m.memory a) ≡ get_or evalstack i nil) × ReadsAs evalstack m nodes

-- What RETURN leaves of the machine `s`, whose open upvalues are `nodes`.
pub record Returned (nodes : List (ℕ × ℕ)) (s after : Machine) : Type 0 where
  pub stack_top : after.vm.stack_top ≡ suc (current_frame s).slots
  pub result : get_or after.vm.evalstack (current_frame s).slots nil ≡ top_value s
  pub others :
      (i : ℕ)
      → (i == (current_frame s).slots) ≡ false
      → get_or after.vm.evalstack i nil ≡ get_or s.vm.evalstack i nil
  pub frame_count : after.vm.frame_count + 1 ≡ s.vm.frame_count
  pub frames : after.vm.frames ≡ s.vm.frames
  pub memory : after.vm.memory ≡ s.vm.memory
  pub context : after.context ≡ s.context
  pub closed : Closed (current_frame s).slots nodes (upvalue_machine s) (record {
    evalstack = s.vm.evalstack;
    memory = after.upvalues;
    open_upvalues = after.open_upvalues;
  })
  pub released : Released s.vm.evalstack after.upvalues (above (current_frame s).slots nodes)
  pub still_open :
      ReadsAs s.vm.evalstack (upvalue_machine after) (below (current_frame s).slots nodes)

slot_read :
    (xs : List Value) (i j : ℕ) (v : Value)
    → i < length xs
    → (j == i) ≡ false
    → get_or (set xs i v) j nil ≡ get_or xs j nil
slot_read xs i j v room h = ground (arith, get_or-set xs i j v nil room)

slot_written : (xs : List Value) (i : ℕ) (v : Value) → i < length xs → get_or (set xs i v) i nil ≡ v
slot_written xs i v room = ground (arith, get_or-set xs i i v nil room)

-- a write of a slot is not seen by the open upvalues of the slots below it
open-ReadsAs :
    (xs : List Value) (slots bound : ℕ) (v : Value) (memory : Memory) (first opened : ℕ)
    → (nodes : List (ℕ × ℕ)) → slots < length xs
    → bound ≤ slots
    → Chain memory first nodes
    → Descending bound nodes
    → ReadsAs xs
        (record { evalstack = set xs slots v; memory = memory; open_upvalues = opened })
        nodes
unfolding deref
open-ReadsAs xs slots bound v memory first opened [] room low c d = tt
open-ReadsAs xs slots bound v memory first opened ((a, i) ∷ nodes) room low (e, z, l, c) (k, d) = (
  rw l (slot_read xs slots i v room (ground arith)),
  open-ReadsAs xs slots i v memory _ opened nodes room (omega arith) c d,
)

-- closing leaves the stack as it is
same_stack :
    (nodes : List (ℕ × ℕ)) (last : ℕ) (u t : Upvalue.Machine)
    → Closed last nodes u t
    → Closed last nodes u
        (record { evalstack = u.evalstack; memory = t.memory; open_upvalues = t.open_upvalues })
same_stack nodes last u t c =
    subst (Closed last nodes u)
      (ap (λ e. record { evalstack = e; memory = t.memory; open_upvalues = t.open_upvalues })
        c.evalstack)
      c

-- On a frame above another, with its slots in the stack and a value on top, and with the open
-- upvalues in a chain of descending slots, RETURN goes on in the frame below: the value that was on
-- top is now on top at the first slot of the frame, and no other slot and no object is written. The
-- upvalues from that slot up have left the stack, each with the value that its slot had, so the result
-- that is written there is not seen through them. Those of lower slots stay open and read as before,
-- from the stack that is left.
pub run_return-Returned :
    (bound : ℕ) (nodes : List (ℕ × ℕ)) (s : Machine)
    → 1 < s.vm.frame_count
    → 0 < s.vm.stack_top
    → (current_frame s).slots < length s.vm.evalstack
    → Chain s.upvalues s.open_upvalues nodes
    → Descending bound nodes
    → length nodes ≤ length s.vm.evalstack
    → (after : Machine) × (run_return s ≡ ok tt after) × Returned nodes s after
unfolding returned_to with_upvalues
run_return-Returned bound nodes s frames low room chain order enough =
    let slots = (current_frame s).slots in
    let closed = same_stack nodes slots (upvalue_machine s) _ (
      close_upvalues-Closed (length s.vm.evalstack) slots bound nodes (upvalue_machine s) chain
        order enough) in
    (
      returned_to s,
      run_return-returned_to s frames low room,
      record {
        stack_top = refl;
        result = slot_written s.vm.evalstack slots (top_value s) room;
        others = λ i h. slot_read s.vm.evalstack slots i (top_value s) room h;
        frame_count = omega arith;
        frames = refl;
        memory = refl;
        context = refl;
        closed = closed;
        released = closed.released;
        still_open =
            open-ReadsAs s.vm.evalstack slots slots (top_value s) _ _ _ (below slots nodes) room
              (omega arith) closed.chain closed.lower;
      },
    )
