-- ===== src/Execute/Tests.antt =====
-- A script that prints 1 + 1, and a function that is about to return to it.
use cpp_lox.Prelude.{
  ◌<◌, not, ℕ, zero, suc, ◌+◌, ◌≡◌, refl, true, false, some, List, [], ◌∷◌, ◌==◌, if◌then◌else◌,
  arith, length, replicate, Returns,
}
use cpp_lox.HashMap.Keys.{Key, IsLawful, Default}
use cpp_lox.HashMap.{new, insert}
use cpp_lox.HashMap.NumberKey.{number_key, number_value}
use cpp_lox.HashMap.View.{view}
use cpp_lox.HashMap.Fill.{Wrote}
use cpp_lox.HashMap.Methods.{insert-Wrote}
use cpp_lox.HashMap.Found.{is_some}
use cpp_lox.HashMap.Tuning.{new-IsValid}
use cpp_lox.Object.{
  Value, nil, object, number_int, StringValueTable, string, function, closure, list,
}
use cpp_lox.OpCode.{to_byte, decode, op_one, op_add, op_print, op_nil, op_return}
use cpp_lox.Upvalue
use cpp_lox.Upvalue.{own, slot_at}
use cpp_lox.Vm.{push, pop, peek, CallFrame, new_frame, Memory}
use cpp_lox.Execute.State.{
  Env, Fresh, Machine, Result, ok, finished, current_frame, push_value, pop_value, peek_value,
  in_frame, next_byte, current_code, set_ip, return, get_state, put_state, fail, ◌>>=◌,
}
use cpp_lox.Execute.Dispatch.{execute, step, run_op}
use cpp_lox.Execute.Operators.{run_add, both_are, binary_op, run_print}
use cpp_lox.Chunk.{read_byte}
use cpp_lox.Execute.Values.{is_number, int_add}
use cpp_lox.Upvalue.{close_upvalues}
use cpp_lox.Execute.Returned.{Returned, run_return-Returned}
use cpp_lox.Execute.Variables.{run_return, leave_frame, close_from, with_upvalues}
use cpp_lox.Execute.Inherited.{Inherits, copy_methods-Inherits}
use cpp_lox.Execute.Classes.{copy_methods}
use cpp_lox.Execute.Indexed.{Indexed, list-Indexed}

instance abbrev value_default : Default Value
value_default = record { default = nil }

-- any lawful comparison of values will do: this one has one key
one_key-IsLawful : IsLawful {K = Value} (λ a b. true) (λ a. 0)
one_key-IsLawful = record {
  reflexive = λ a. refl;
  swap = λ a b. refl;
  chain = λ a b c h k. refl;
  hash_same = λ a b h. refl;
}

instance abbrev value_key : Key Value
value_key = record { default = nil; equal = λ a b. true; hash = λ a. 0; lawful = one_key-IsLawful }

-- 1 + 1 is printed, and the script ends
abbrev code : ℕ → List ℕ
code (suc (suc zero)) =
    to_byte op_one
    ∷ to_byte op_one
    ∷ to_byte op_add
    ∷ to_byte op_print
    ∷ to_byte op_nil
    ∷ to_byte op_return
    ∷ []
code _ = []

abbrev env : Env
env = record {
  arity = λ a. 0;
  code = code;
  upvalue_count = λ a. 0;
  native = λ a s n slot. (nil, true, s.memory);
  text = λ a. [];
  intern = λ text. 100;
  real_of = λ i. i;
  real_add = λ a b. a;
  real_sub = λ a b. a;
  real_mul = λ a b. a;
  real_div = λ a b. a;
  real_less = λ a b. false;
  real_equal = λ a b. a == b;
  real_near = λ a b. a == b;
  real_negate = λ a. a;
  constant_string_init = 50;
}

abbrev memory : Memory
memory (suc zero) = closure 2 []
memory (suc (suc zero)) = function [] 8
memory (suc (suc (suc zero))) = list (number_int 7 ∷ number_int 8 ∷ [])
memory _ = string

abbrev frames : List CallFrame
frames =
    record { closure = 1; ip = 0; slots = 0 }
    ∷ record { closure = 1; ip = 0; slots = 1 }
    ∷ replicate 254 new_frame

abbrev upvalues : Upvalue.Memory
upvalues a = record { next = 0; closed = nil; location = own }

-- `depth` frames, and `top` values on the stack
abbrev machine : ℕ → ℕ → Machine
machine depth top = record {
  vm = record {
    evalstack = object 1 ∷ object 3 ∷ number_int 1 ∷ number_int 5 ∷ nil ∷ [];
    stack_top = top;
    frames = frames;
    frame_count = depth;
    memory = memory;
  };
  context = record { global_names = new; values = []; names = [] };
  upvalues = upvalues;
  open_upvalues = 0;
  output = [];
}

abbrev fresh : ℕ → Fresh
fresh n = record { object_at = 10 + n; upvalue_at = λ i. 20 + i }

abbrev printed : Result (Unit {0}) → List Value
printed (finished s) = s.output
printed _ = []

-- two open upvalues: 7 of a slot of the frame, and 8 of a slot of the one below
abbrev captured : Upvalue.Memory
captured a =
    if a == 7
    then record { next = 8; closed = nil; location = slot_at 3 }
    else if a == 8
    then record { next = 0; closed = nil; location = slot_at 0 }
    else record { next = 0; closed = nil; location = own }

abbrev capturing : Machine
capturing = record (machine 2 4) { upvalues = captured; open_upvalues = 7 }

returning : (current_frame capturing).slots < length capturing.vm.evalstack
unfolding current_frame
returning = omega arith

run_return-Returned_example :
    (after : Machine) × (run_return capturing ≡ ok tt after)
    × Returned ((7, 3) ∷ (8, 0) ∷ []) capturing after
run_return-Returned_example =
    run_return-Returned 5 ((7, 3) ∷ (8, 0) ∷ []) capturing (omega arith) (omega arith) returning
      (refl, (λ e. omega (arith, e)), refl, (refl, (λ e. omega (arith, e)), refl, refl))
      (omega arith, (omega arith, tt)) (omega arith)

abbrev none_yet : StringValueTable
none_yet = new

-- a superclass with the method 5
abbrev first_method :
    Returns
      (insert none_yet 5 (object 1))
      λ r. (r.0 ≡ not (is_some (view none_yet.slots 5))) × Wrote none_yet 5 (some (object 1)) r.1
first_method = insert-Wrote none_yet new-IsValid.0 5 refl (object 1)

abbrev super : StringValueTable
super = first_method.0.1

copy_methods-Inherits_example :
    Returns (copy_methods env super.slots none_yet) (Inherits env super.slots none_yet)
copy_methods-Inherits_example =
    copy_methods-Inherits env super none_yet first_method.2.1.valid new-IsValid.0

list-Indexed_example : Indexed 3 1 nil (machine 2 4)
list-Indexed_example = list-Indexed 3 1 (machine 2 4) nil (omega arith) (omega arith) (omega arith)

-- two ones are added and printed
ran : printed (execute env 10 fresh (machine 1 1)) ≡ number_int 2 ∷ []
unfolding execute step run_op run_add both_are binary_op run_print run_return leave_frame close_from
    push_value pop_value peek_value next_byte current_frame current_code set_ip return get_state
    put_state fail ◌>>=◌ read_byte decode to_byte push pop peek is_number int_add with_upvalues
    close_upvalues in_frame replicate
ran = refl
