-- ===== src/Vm/Tests.antt =====
-- A class with a method, an instance of it, and a call of the method bound to the instance.
use cpp_lox.Prelude.{
  ℕ, zero, suc, ◌≡◌, ◌≢◌, refl, sym, ap, ◌∙◌, Bool, true, false, none, some, List, [], ◌∷◌,
  replicate, length-replicate, arith,
}
use cpp_lox.HashMap.Keys.{Default}
use cpp_lox.HashMap.{filled, units, new, get, find_slot, probe, is_filled}
use cpp_lox.HashMap.NumberKey.{number_key}
use cpp_lox.Object.{
  Value, nil, object, Object, StringValueTable, string, native_function, function, class,
  instance_of, bound_method, closure,
}
use cpp_lox.Vm.{
  set_callee, Vm, new_frame, Memory, Outcome, returns, throws, loops, call, call_object,
  call_native, call_class, call_value, return_native, push, pop, peek, set_callee, is_nil, invoke,
  invoke_object, invoke_from_class,
}
use cpp_lox.Vm.Called.{HasCallee, Called, call_value-Called}
use cpp_lox.Vm.Invoked.{invoke-call_value}

instance abbrev value_default : Default Value
value_default = record { default = nil }

-- the method 5 of the class is the closure 1
abbrev methods : StringValueTable
methods = record {
  size = 1;
  tombstones = 0;
  max_load_factor = 0;
  growth_factor = units 0;
  slots = record { key = 5; value = object 1; state = filled } ∷ [];
}

abbrev memory : Memory
memory (suc zero) = closure 2 []
memory (suc (suc zero)) = function [] 8
memory (suc (suc (suc zero))) = class 8 nil methods
memory (suc (suc (suc (suc zero)))) = instance_of 3 new
memory (suc (suc (suc (suc (suc (suc zero)))))) = bound_method (object 4) 1
memory (suc (suc (suc (suc (suc (suc (suc zero))))))) = native_function
memory _ = string

abbrev arity : ℕ → ℕ
arity a = 1

-- a native function that returns its argument
abbrev native : ℕ → Vm → ℕ → ℕ → Value × Bool × Memory
native callee s arg_count slot = (object 9, true, s.memory)

abbrev machine : Vm
machine = record {
  evalstack = object 4 ∷ nil ∷ nil ∷ [];
  stack_top = 2;
  frames = replicate 256 new_frame;
  frame_count = 0;
  memory = memory;
}

machine-HasCallee : HasCallee 1 machine
unfolding HasCallee
machine-HasCallee =
    (omega arith, omega arith, omega arith, omega (arith, length-replicate 256 new_frame))

program : Unit {0}
unfolding call call_object call_native call_class call_value return_native push pop peek set_callee
    is_nil invoke invoke_object invoke_from_class get find_slot probe is_filled new
program = tt

abbrev height : Outcome (Bool × Vm) → Bool × (ℕ × ℕ)
height (returns (b, s)) = (b, (s.stack_top, s.frame_count))
height throws = (false, (0, 0))
height loops = (false, (0, 0))

-- the method is entered, a native function has returned, and an instance cannot be called
invoked : height (invoke arity native 20 5 1 machine) ≡ (true, (2, 1))
unfolding program
invoked = refl

native_called : height (call_value arity native 20 (object 7) 1 machine) ≡ (true, (1, 0))
unfolding program
native_called = refl

refused : height (call_value arity native 20 (object 4) 1 machine) ≡ (false, (2, 0))
unfolding program
refused = refl

-- a class without `init` and with an argument
surplus : height (call_value arity native 20 (object 3) 1 machine) ≡ (false, (2, 0))
unfolding program
surplus = refl

abbrev is_function : Object → Bool
is_function (function constants name) = true
is_function _ = false

abbrev address : Value → ℕ
address (object a) = a
address _ = 0

apart : true ≢ false
apart h = ground arith

bound_is_no_function :
    (a : ℕ) (constants : List Value) (name : ℕ)
    → object 6 ≡ object a
    → memory a ≢ function constants name
bound_is_no_function a constants name same is_code =
    apart (sym (ap is_function is_code) ∙ sym (ap (λ v. is_function (memory (address v))) same))

top : peek 1 machine ≡ returns (object 4)
unfolding program
top = refl

no_field : get (new {K = ℕ} {V = Value}) 5 ≡ some none
unfolding program
no_field = refl

method : get methods 5 ≡ some (some (object 1))
unfolding program
method = refl

call_value-Called_example : Called arity 1 machine (call_value arity native 20 (object 6) 1 machine)
call_value-Called_example =
    call_value-Called arity native 20 (object 6) 1 machine machine-HasCallee bound_is_no_function

invoke-call_value_example :
    invoke arity native 20 5 1 machine
    ≡ call_value arity native 20 (object 6) 1 (set_callee 1 (object 6) machine)
invoke-call_value_example =
    invoke-call_value arity native 20 4 6 3 5 1 1 new machine top refl no_field method refl
