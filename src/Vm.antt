-- ===== src/Vm.antt =====
-- include/vm.hpp and src/vm/vm.cpp: the stack of values, the frames, and the calls of the virtual
-- machine (`call_value`, `call`, `invoke`, `invoke_from_class`).
-- A pointer into the stack is the index of a slot; a pointer to an object is an address of
-- `memory`, 0 is `nullptr`. The number of parameters of a function, which `Object` does not hold,
-- and the native functions are parameters; a native function reads the machine, and of the machine
-- it changes the objects only. The address of a new instance is an argument. The message of an
-- error is not modelled. A `static_cast` is not checked: of another object it reads 0.
pub mod Called
pub mod Invoked
mod Tests
use cpp_lox.Prelude.{
  ℕ, suc, ◌+◌, ◌-◌, ◌^◌, Bool, true, false, not, ◌&&◌, Option, none, some, List, ltb, ◌==◌,
  if◌then◌else◌, length, get_or, set,
}
use cpp_lox.HashMap.Keys.{Key, Default}
use cpp_lox.HashMap.{new, get}
use cpp_lox.Object.{
  Value, nil, boolean, number_real, number_int, object, uninitialized, StringValueTable, Object,
  string, native_function, upvalue, function, class, instance_of, bound_method, closure, list,
  map_of,
}

pub record CallFrame : Type 0 where
  pub closure : ℕ
  pub ip : ℕ
  pub slots : ℕ

abbrev pub new_frame : CallFrame
new_frame = record { closure = 0; ip = 0; slots = 0 }

abbrev pub Memory : Type 0
Memory = ℕ → Object

pub record Vm : Type 0 where
  pub evalstack : List Value
  pub stack_top : ℕ
  pub frames : List CallFrame
  pub frame_count : ℕ
  pub memory : Memory

abbrev pub max_frame_size : ℕ
max_frame_size = 256

-- the arity -1, as the `size_t` that `arity()` returns
abbrev pub any_arity : ℕ
any_arity = 2 ^ 64 - 1

-- What a call does: it returns, an exception leaves it, or a lookup does not end.
pub data Outcome (A : Type 0) : Type 0 where
  returns : A → Outcome A
  throws loops : Outcome A

unfoldable pub push : Value → Vm → Outcome Vm
push value s =
    if s.stack_top == length s.evalstack
    then throws
    else returns
        (record s { evalstack = set s.evalstack s.stack_top value; stack_top = suc s.stack_top })

unfoldable pub pop : Vm → Outcome (Value × Vm)
pop s =
    if s.stack_top == 0
    then throws
    else returns
        (get_or s.evalstack (s.stack_top - 1) nil, record s { stack_top = s.stack_top - 1 })

unfoldable pub peek : ℕ → Vm → Outcome Value
peek offset s =
    if ltb s.stack_top (offset + 1)
    then throws
    else returns (get_or s.evalstack (s.stack_top - offset - 1) nil)

-- `*(stack_top - arg_count - 1) = value`, where the callee and the arguments lie in the stack: CALL
-- and INVOKE have peeked at the callee
unfoldable pub set_callee : ℕ → Value → Vm → Vm
set_callee arg_count value s = record s {
  evalstack = set s.evalstack (s.stack_top - arg_count - 1) value;
}

abbrev pub allocate : ℕ → Object → Vm → Vm
allocate fresh o s = record s { memory = λ a. if a == fresh then o else s.memory a }

-- `closure->get()`
abbrev pub function_of : Object → ℕ
function_of (closure f upvalues) = f
function_of string = 0
function_of native_function = 0
function_of (upvalue next v) = 0
function_of (function constants name) = 0
function_of (class name init_method methods) = 0
function_of (instance_of class_ fields) = 0
function_of (bound_method receiver method) = 0
function_of (list values) = 0
function_of (map_of table) = 0

-- `as_object()`, of a value that holds an object
abbrev pub as_object : Value → ℕ
as_object (object a) = a
as_object nil = 0
as_object uninitialized = 0
as_object (boolean b) = 0
as_object (number_real n) = 0
as_object (number_int n) = 0

unfoldable pub is_nil : Value → Bool
is_nil nil = true
is_nil uninitialized = true
is_nil (object a) = false
is_nil (boolean b) = false
is_nil (number_real n) = false
is_nil (number_int n) = false

-- The frame that `call` fills, where the callee and the arguments lie in the stack. CALL and INVOKE
-- have peeked at the callee; SUPER_INVOKE goes on only there.
abbrev pub frame_of : ℕ → ℕ → Vm → CallFrame
frame_of callee arg_count s = record {
  closure = callee;
  ip = 0;
  slots = s.stack_top - arg_count - 1;
}

abbrev pub enter : ℕ → ℕ → Vm → Vm
enter callee arg_count s = record s {
  frames = set s.frames s.frame_count (frame_of callee arg_count s);
  frame_count = suc s.frame_count;
}

-- `class_->methods()`, of a class
abbrev pub methods_of : Object → StringValueTable
methods_of (class name init_method methods) = methods
methods_of string = new
methods_of native_function = new
methods_of (upvalue next v) = new
methods_of (function constants name) = new
methods_of (instance_of class_ fields) = new
methods_of (bound_method receiver method) = new
methods_of (closure f upvalues) = new
methods_of (list values) = new
methods_of (map_of table) = new

abbrev pub returned : Outcome Vm → Outcome (Bool × Vm)
returned (returns s) = returns (true, s)
returned throws = throws
returned loops = loops

-- `stack_top -= arg_count + 1; push(result)`
unfoldable pub return_native : ℕ → Value → Vm → Outcome (Bool × Vm)
return_native arg_count result s =
    returned (push result (record s { stack_top = s.stack_top - (arg_count + 1) }))

module _ (arity : ℕ → ℕ) where
  unfoldable pub call : ℕ → ℕ → Vm → Bool × Vm
  call callee arg_count s =
      if not (arg_count == arity (function_of (s.memory callee)))
      then (false, s)
      else if s.frame_count == max_frame_size
      then (false, s)
      else (true, enter callee arg_count s)

  -- the branch of `call_value` for a class
  unfoldable pub call_class : ℕ → ℕ → Value → ℕ → Vm → Bool × Vm
  call_class fresh class_ init_method arg_count s =
      let created =
        set_callee arg_count (object fresh) (allocate fresh (instance_of class_ new) s) in
      if not (is_nil init_method)
      then call (as_object init_method) arg_count created
      else (arg_count == 0, created)

module _ (arity : ℕ → ℕ) (native : ℕ → Vm → ℕ → ℕ → Value × Bool × Memory) where
  -- the branch of `call_value` for a native function
  unfoldable pub call_native : ℕ → ℕ → Vm → Outcome (Bool × Vm)
  call_native callee arg_count s =
      let (result, ok, memory) = native callee s arg_count (s.stack_top - arg_count - 1) in
      if not (arity callee == any_arity) && not (arg_count == arity callee)
      then returns (false, s)
      else if not ok
      then returns (false, record s { memory = memory })
      else return_native arg_count result (record s { memory = memory })

  unfoldable pub call_object : ℕ → ℕ → Object → ℕ → Vm → Outcome (Bool × Vm)
  call_object fresh callee (function constants name) arg_count s = throws
  call_object fresh callee (closure f upvalues) arg_count s =
      returns (call arity callee arg_count s)
  call_object fresh callee (bound_method receiver method) arg_count s =
      returns (call arity method arg_count (set_callee arg_count receiver s))
  call_object fresh callee (class name init_method methods) arg_count s =
      returns (call_class arity fresh callee init_method arg_count s)
  call_object fresh callee native_function arg_count s = call_native callee arg_count s
  call_object fresh callee string arg_count s = returns (false, s)
  call_object fresh callee (upvalue next v) arg_count s = returns (false, s)
  call_object fresh callee (instance_of class_ fields) arg_count s = returns (false, s)
  call_object fresh callee (list values) arg_count s = returns (false, s)
  call_object fresh callee (map_of table) arg_count s = returns (false, s)

  unfoldable pub call_value : ℕ → Value → ℕ → Vm → Outcome (Bool × Vm)
  call_value fresh (object a) arg_count s = call_object fresh a (s.memory a) arg_count s
  call_value fresh nil arg_count s = returns (false, s)
  call_value fresh uninitialized arg_count s = returns (false, s)
  call_value fresh (boolean b) arg_count s = returns (false, s)
  call_value fresh (number_real n) arg_count s = returns (false, s)
  call_value fresh (number_int n) arg_count s = returns (false, s)

  module _ ⦃key : Key ℕ⦄ ⦃value : Default Value⦄ where
    -- the lookup's result in `invoke_from_class`
    abbrev pub call_method : ℕ → Vm → Option (Option Value) → Outcome (Bool × Vm)
    call_method arg_count s none = loops
    call_method arg_count s (some none) = returns (false, s)
    call_method arg_count s (some (some method)) =
        returns (call arity (as_object method) arg_count s)

    unfoldable pub invoke_from_class : ℕ → ℕ → ℕ → Vm → Outcome (Bool × Vm)
    invoke_from_class class_ property_name arg_count s =
        call_method arg_count s (get (methods_of (s.memory class_)) property_name)

    -- the lookup's result in `invoke`
    abbrev pub call_field : ℕ → ℕ → ℕ → ℕ → Vm → Option (Option Value) → Outcome (Bool × Vm)
    call_field fresh class_ method_name arg_count s none = loops
    call_field fresh class_ method_name arg_count s (some none) =
        invoke_from_class class_ method_name arg_count s
    call_field fresh class_ method_name arg_count s (some (some v)) =
        call_value fresh v arg_count (set_callee arg_count v s)

    unfoldable pub invoke_object : ℕ → ℕ → Object → ℕ → Vm → Outcome (Bool × Vm)
    invoke_object fresh method_name (instance_of class_ fields) arg_count s =
        call_field fresh class_ method_name arg_count s (get fields method_name)
    invoke_object fresh method_name string arg_count s = returns (false, s)
    invoke_object fresh method_name native_function arg_count s = returns (false, s)
    invoke_object fresh method_name (upvalue next v) arg_count s = returns (false, s)
    invoke_object fresh method_name (function constants name) arg_count s = returns (false, s)
    invoke_object fresh method_name (class name init_method methods) arg_count s =
        returns (false, s)
    invoke_object fresh method_name (bound_method receiver method) arg_count s = returns (false, s)
    invoke_object fresh method_name (closure f upvalues) arg_count s = returns (false, s)
    invoke_object fresh method_name (list values) arg_count s = returns (false, s)
    invoke_object fresh method_name (map_of table) arg_count s = returns (false, s)

    abbrev pub invoke_receiver : ℕ → ℕ → Value → ℕ → Vm → Outcome (Bool × Vm)
    invoke_receiver fresh method_name (object a) arg_count s =
        invoke_object fresh method_name (s.memory a) arg_count s
    invoke_receiver fresh method_name nil arg_count s = returns (false, s)
    invoke_receiver fresh method_name uninitialized arg_count s = returns (false, s)
    invoke_receiver fresh method_name (boolean b) arg_count s = returns (false, s)
    invoke_receiver fresh method_name (number_real n) arg_count s = returns (false, s)
    invoke_receiver fresh method_name (number_int n) arg_count s = returns (false, s)

    abbrev pub invoke_peeked : ℕ → ℕ → ℕ → Vm → Outcome Value → Outcome (Bool × Vm)
    invoke_peeked fresh method_name arg_count s (returns receiver) =
        invoke_receiver fresh method_name receiver arg_count s
    invoke_peeked fresh method_name arg_count s throws = throws
    invoke_peeked fresh method_name arg_count s loops = loops

    unfoldable pub invoke : ℕ → ℕ → ℕ → Vm → Outcome (Bool × Vm)
    invoke fresh method_name arg_count s =
        invoke_peeked fresh method_name arg_count s (peek arg_count s)
