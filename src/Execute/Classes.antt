-- ===== src/Execute/Classes.antt =====
-- src/vm/vm.cpp, `execute`: the calls, the classes, the properties and the methods.
use cpp_lox.Prelude.{
  ℕ, ◌+◌, ◌-◌, Bool, true, false, not, Option, none, some, List, [], ◌∷◌, ltb, ◌==◌, if◌then◌else◌,
}
use cpp_lox.HashMap.Keys.{Key, Default}
use cpp_lox.HashMap.{Slot, is_filled, new, get, insert, assign}
use cpp_lox.Prelude
use cpp_lox.Object.{Value, nil, object, StringValueTable, Object, class, instance_of, bound_method}
use cpp_lox.Vm.{Vm, Outcome, as_object, methods_of, call_value, invoke, invoke_from_class}
use cpp_lox.Execute.State.{
  Env, Run, ok, runtime_error, throws, loops, undefined, ◌>>=◌, ◌>>◌, return, fail, throw,
  get_state, given, put_state, push_value, pop_value, peek_value, set_object, lookup, next_byte,
  read_constant_long,
}
use cpp_lox.Execute.Values.{is_a, string_object, class_object, instance_object, fields_of, class_of}

-- a call of the machine that is below
unfoldable pub from_call : Outcome (Bool × Vm) → Run (Unit {0})
from_call (Outcome.returns (true, vm)) s = ok tt (record s { vm = vm })
from_call (Outcome.returns (false, vm)) s = runtime_error (record s { vm = vm })
from_call Outcome.throws s = throws
from_call Outcome.loops s = loops

abbrev pub set_methods : StringValueTable → Object → Object
set_methods methods (class name init_method old) = class name init_method methods
set_methods methods o = o

abbrev pub set_init_method : Value → Object → Object
set_init_method v (class name init_method methods) = class name v methods
set_init_method v o = o

abbrev pub set_fields : StringValueTable → Object → Object
set_fields fields (instance_of class_ old) = instance_of class_ fields
set_fields fields o = o

-- The receiver and the arguments lie in the stack, which SUPER_INVOKE does not test: without them the
-- frame of the call would start below the stack.
unfoldable pub receiver_in_stack : ℕ → Run (Unit {0})
receiver_in_stack arg_count s = if ltb arg_count s.vm.stack_top then ok tt s else undefined

module _ (env : Env) ⦃key : Key ℕ⦄ ⦃value : Default Value⦄ where
  unfoldable pub run_call : ℕ → Run (Unit {0})
  run_call fresh = do
    arg_count ← next_byte env
    callee ← peek_value arg_count
    s ← get_state
    from_call (call_value env.arity env.native fresh callee arg_count s.vm)

  unfoldable pub run_invoke : ℕ → Run (Unit {0})
  run_invoke fresh = do
    name ← read_constant_long env
    arg_count ← next_byte env
    s ← get_state
    from_call (invoke env.arity env.native fresh (as_object name) arg_count s.vm)

  unfoldable pub run_super_invoke : Run (Unit {0})
  run_super_invoke = do
    name ← read_constant_long env
    arg_count ← next_byte env
    super ← pop_value
    s ← get_state
    receiver_in_stack arg_count
    from_call
        (invoke_from_class env.arity env.native (as_object super) (as_object name) arg_count s.vm)

  unfoldable pub run_class : ℕ → Run (Unit {0})
  run_class fresh = do
    name ← read_constant_long env
    s ← get_state
    if (is_a string_object s.vm.memory name)
        then (do
          push_value name
          pushed ← get_state
          put_state (set_object fresh (class (as_object name) nil new) pushed)
          popped ← pop_value
          push_value (object fresh))
        else (throw)

  -- the bound method takes the place of the instance on the stack
  unfoldable pub bind_method : ℕ → Value → Run (Unit {0})
  bind_method fresh method = do
    receiver ← peek_value 0
    s ← get_state
    put_state (set_object fresh (bound_method receiver (as_object method)) s)
    instance ← pop_value
    push_value (object fresh)

  -- a field of the instance, or else a method of its class bound to it, or else `missing`
  unfoldable pub load_property : ℕ → Value → ℕ → Run (Unit {0}) → Run (Unit {0})
  load_property fresh receiver property missing = do
    s ← get_state
    let instance = s.vm.memory (as_object receiver)
    field ← lookup (get (fields_of instance) property)
    given field (λ v. do popped ← pop_value; push_value v)
        (do
          method ← lookup (get (methods_of (s.vm.memory (class_of instance))) property)
          given method (λ m. bind_method fresh m) (missing))

  unfoldable pub run_load_property : ℕ → Run (Unit {0})
  run_load_property fresh = do
    receiver ← peek_value 0
    s ← get_state
    if (is_a instance_object s.vm.memory receiver)
        then (do
          property ← read_constant_long env
          load_property fresh receiver (as_object property) fail)
        else (fail)

  unfoldable pub pop_to_nil : Run (Unit {0})
  pop_to_nil = do popped ← pop_value; push_value nil

  unfoldable pub run_load_property_safe : ℕ → Run (Unit {0})
  run_load_property_safe fresh = do
    receiver ← peek_value 0
    s ← get_state
    property ← read_constant_long env
    if (is_a instance_object s.vm.memory receiver)
        then (load_property fresh receiver (as_object property) pop_to_nil)
        else (pop_to_nil)

  unfoldable pub run_store_property : Run (Unit {0})
  run_store_property = do
    receiver ← peek_value 1
    s ← get_state
    if (is_a instance_object s.vm.memory receiver)
        then (do
          property ← read_constant_long env
          v ← peek_value 0
          after ← get_state
          let instance = after.vm.memory (as_object receiver)
          fields ← lookup (assign (fields_of instance) (as_object property) v)
          put_state (set_object (as_object receiver) (set_fields fields instance) after)
          top ← pop_value
          popped ← pop_value
          push_value top)
        else (fail)

  unfoldable pub run_method : Run (Unit {0})
  run_method = do
    name ← read_constant_long env
    s ← get_state
    if (is_a string_object s.vm.memory name)
        then (do
          method ← peek_value 0
          class_ ← peek_value 1
          let old = s.vm.memory (as_object class_)
          inserted ← lookup (insert (methods_of old) (as_object name) method)
          let added = set_methods inserted.1 old
          put_state (
              set_object (as_object class_)
                (if as_object name == env.constant_string_init
                  then set_init_method method added
                  else added)
                s)
          popped ← pop_value
          return tt)
        else (throw)

  -- the loop of INHERIT over the slots of the superclass
  unfoldable pub copy_slot : Slot ℕ Value → StringValueTable → Option StringValueTable
  unfolding is_filled
  copy_slot slot methods =
      if is_filled slot.state
      then (Prelude.◌>>=◌ (insert methods slot.key slot.value) λ r. some r.1)
      else some methods

  unfoldable pub copy_methods : List (Slot ℕ Value) → StringValueTable → Option StringValueTable
  copy_methods [] methods = some methods
  copy_methods (slot ∷ slots) methods = Prelude.◌>>=◌ (copy_slot slot methods) (copy_methods slots)

  unfoldable pub run_inherit : Run (Unit {0})
  run_inherit = do
    super ← peek_value 1
    s ← get_state
    if (is_a class_object s.vm.memory super)
        then (do
          sub ← peek_value 0
          let old = s.vm.memory (as_object sub)
          methods ←
              lookup
                (copy_methods (methods_of (s.vm.memory (as_object super))).slots (methods_of old))
          put_state (set_object (as_object sub) (set_methods methods old) s)
          popped ← pop_value
          return tt)
        else (fail)

  unfoldable pub run_load_super : ℕ → Run (Unit {0})
  run_load_super fresh = do
    name ← read_constant_long env
    super ← pop_value
    instance ← peek_value 0
    s ← get_state
    method ← lookup (get (methods_of (s.vm.memory (as_object super))) (as_object name))
    given method (λ m. bind_method fresh m) (fail)
