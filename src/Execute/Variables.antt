-- ===== src/Execute/Variables.antt =====
-- src/vm/vm.cpp, `execute`: the instructions on globals, locals and upvalues, and the return.
-- The open upvalues have slots of their own, so that their loops make at most a round for each.
use cpp_lox.Prelude.{
  if◌then◌else◌, ℕ, zero, suc, ◌+◌, ◌-◌, Bool, true, not, ◌&&◌, ◌||◌, List, [], leb, ◌==◌, length,
  get_or, set, replicate,
}
use cpp_lox.Integers.{pos}
use cpp_lox.HashMap.Keys.{Key, Default}
use cpp_lox.Object.{Value, nil, object, Object, closure}
use cpp_lox.Context.{GlobalValue, exists, is_defined, is_initialized, get_internal_value}
use cpp_lox.Upvalue
use cpp_lox.Upvalue.{Location, slot_at, own, deref, write, capture_upvalue, close_upvalues}
use cpp_lox.Vm.{as_object}
use cpp_lox.Execute.State.{
  Env, Fresh, Machine, Run, ok, finished, ◌>>=◌, ◌>>◌, return, fail, get_state, put_state,
  push_value, pop_value, peek_value, current_frame, set_object, in_stack, set_slot, next_byte,
  next_word, read_constant_long,
}
use cpp_lox.Execute.Values.{is_uninitialized}

-- `values[index] = global`
unfoldable pub set_global : ℕ → GlobalValue → Machine → Machine
set_global index global s = record s {
  context = record (s.context) { values = set s.context.values index global };
}

-- the part of the machine that the upvalues use, and back
abbrev pub upvalue_machine : Machine → Upvalue.Machine
upvalue_machine s = record {
  evalstack = s.vm.evalstack;
  memory = s.upvalues;
  open_upvalues = s.open_upvalues;
}

unfoldable pub with_upvalues : Upvalue.Machine → Machine → Machine
with_upvalues u s = record s { upvalues = u.memory; open_upvalues = u.open_upvalues }

unfoldable pub close_from : ℕ → Run (Unit {0})
unfolding with_upvalues
close_from last s =
    ok tt (with_upvalues (close_upvalues (length s.vm.evalstack) last (upvalue_machine s)) s)

abbrev pub upvalues_of : Object → List ℕ
upvalues_of (closure f upvalues) = upvalues
upvalues_of _ = []

-- `closure->get_upvalues()[i] = u`
abbrev pub set_upvalue : ℕ → ℕ → Object → Object
set_upvalue i u (closure f upvalues) = closure f (set upvalues i u)
set_upvalue i u o = o

-- the upvalue in the place `slot` of the running closure
unfoldable pub current_upvalue : ℕ → Machine → ℕ
unfolding current_frame
current_upvalue slot s = get_or (upvalues_of (s.vm.memory (current_frame s).closure)) slot 0

unfoldable pub local : ℕ → Machine → Value
unfolding current_frame
local slot s = get_or s.vm.evalstack ((current_frame s).slots + slot) nil

unfoldable pub store_in : Location → ℕ → Value → Machine → Machine
store_in (slot_at i) u v s = set_slot i v s
store_in own u v s = record s {
  upvalues = write s.upvalues u (record (s.upvalues u) { closed = v });
}

-- `*loc = v`, where the upvalue `u` is
unfoldable pub store_at : ℕ → Value → Machine → Machine
unfolding store_in
store_at u v s = store_in (s.upvalues u).location u v s

-- the place of an upvalue is read or written
unfoldable pub in_place : Location → Run (Unit {0})
in_place (slot_at i) = in_stack i
in_place own = return tt

unfoldable pub set_captured : ℕ → ℕ → ℕ → Machine → Machine
unfolding set_object
set_captured a i u s = set_object a (set_upvalue i u (s.vm.memory a)) s

unfoldable pub capture : ℕ → ℕ → Run ℕ
unfolding with_upvalues
capture slot fresh s =
    let (u, machine) = capture_upvalue (length s.vm.evalstack) slot fresh (upvalue_machine s) in
    ok u (with_upvalues machine s)

module _ (env : Env) where
  -- Globals
  module _ ⦃key : Key ℕ⦄ ⦃index : Default ℕ⦄ where
    unfoldable pub run_define_global : Run (Unit {0})
    run_define_global = do
      index ← next_word env
      s ← get_state
      let global = get_internal_value s.context index
      if (global.defined && global.is_const) then (fail) else (do
        v ← peek_value 0
        put_state (
            set_global index
              (record global {
                defined = true;
                value = v;
                initialized = not (is_uninitialized v) || global.initialized;
              })
              s)
        popped ← pop_value
        return tt)

    -- the test before a global is read or written
    unfoldable pub is_undefined : Machine → ℕ → Bool
    is_undefined s index = not (exists s.context (pos index)) || not (is_defined s.context index)

    unfoldable pub run_store_global : Run (Unit {0})
    unfolding is_undefined
    run_store_global = do
      index ← next_word env
      s ← get_state
      let global = get_internal_value s.context index
      if (is_undefined s index || global.is_const) then (fail) else (do
        v ← peek_value 0
        put_state (set_global index (record global { value = v; initialized = true }) s))

    unfoldable pub run_load_global : Run (Unit {0})
    unfolding is_undefined
    run_load_global = do
      index ← next_word env
      s ← get_state
      if (is_undefined s index || not (is_initialized s.context index))
          then (fail)
          else (push_value (get_internal_value s.context index).value)

  -- Locals
  unfoldable pub run_load_local : Run (Unit {0})
  unfolding current_frame
  run_load_local = do
    slot ← next_word env
    s ← get_state
    if (leb s.vm.stack_top slot) then (fail) else (do
      in_stack ((current_frame s).slots + slot)
      if (is_uninitialized (local slot s)) then (fail) else (push_value (local slot s)))

  unfoldable pub run_store_local : Run (Unit {0})
  unfolding current_frame
  run_store_local = do
    slot ← next_word env
    v ← peek_value 0
    s ← get_state
    in_stack ((current_frame s).slots + slot)
    put_state (set_slot ((current_frame s).slots + slot) v s)

  -- Upvalues
  unfoldable pub run_load_upvalue : Run (Unit {0})
  run_load_upvalue = do
    slot ← next_word env
    s ← get_state
    in_place (s.upvalues (current_upvalue slot s)).location
    push_value (deref (upvalue_machine s) (s.upvalues (current_upvalue slot s)))

  unfoldable pub run_store_upvalue : Run (Unit {0})
  run_store_upvalue = do
    slot ← next_word env
    v ← peek_value 0
    s ← get_state
    in_place (s.upvalues (current_upvalue slot s)).location
    put_state (store_at (current_upvalue slot s) v s)

  unfoldable pub run_close_upvalue : Run (Unit {0})
  run_close_upvalue = do s ← get_state; close_from (s.vm.stack_top - 1); v ← pop_value; return tt

  -- the body of the loop of CLOSURE
  unfoldable pub capture_one : ℕ → ℕ → ℕ → Run (Unit {0})
  unfolding current_frame
  capture_one made fresh i = do
    is_local ← next_byte env
    index ← next_word env
    s ← get_state
    u ← if (is_local == 0) then (return (current_upvalue index s)) else (do
      in_stack ((current_frame s).slots + index)
      capture ((current_frame s).slots + index) fresh)
    after ← get_state
    put_state (set_captured made i u after)

  unfoldable pub capture_from : (ℕ → ℕ) → ℕ → ℕ → ℕ → Run (Unit {0})
  capture_from fresh made zero i = return tt
  capture_from fresh made (suc rounds) i =
      capture_one made (fresh i) i >> capture_from fresh made rounds (suc i)

  unfoldable pub run_closure : Fresh → Run (Unit {0})
  run_closure fresh = do
    constant ← read_constant_long env
    let f = as_object constant
    let made = fresh.object_at
    s ← get_state
    put_state (set_object made (closure f (replicate (env.upvalue_count f) 0)) s)
    push_value (object made)
    capture_from fresh.upvalue_at made (env.upvalue_count f) 0

-- the frame below is left, and its slots with it
unfoldable pub leave_frame : Value → Run (Unit {0})
leave_frame result = do
  s ← get_state
  if (s.vm.frame_count - 1 == 0)
      then (do
        put_state (record s { vm = record (s.vm) { frame_count = s.vm.frame_count - 1 } })
        script ← pop_value
        finished)
      else (do
        put_state (record s {
          vm = record (s.vm) {
            frame_count = s.vm.frame_count - 1;
            stack_top = (current_frame s).slots;
          };
        })
        push_value result)

unfoldable pub run_return : Run (Unit {0})
run_return = do
  result ← pop_value
  s ← get_state
  close_from (current_frame s).slots
  leave_frame result
