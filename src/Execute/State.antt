-- ===== src/Execute/State.antt =====
-- src/vm/vm.cpp and include/vm.hpp: the state of `execute` and what its cases are made of.
-- A case is a run on the machine. `runtime_error` and `finished` are the two ways to leave the
-- loop, with the machine as it is left; an exception leaves no machine. The code does not test that
-- a slot of a frame lies in the stack: an access outside the stack is `undefined`, a result that
-- nothing follows.
use cpp_lox.Prelude.{
  Option, some, none, [], ℕ, ◌-◌, Bool, List, ltb, ◌==◌, if◌then◌else◌, length, get_or, set,
}
use cpp_lox.Object.{
  Value, nil, Object, function, closure, string, native_function, upvalue, class, instance_of,
  bound_method, list, map_of,
}
use cpp_lox.Context.{Context}
use cpp_lox.Chunk.{read_byte, read_uint16_le}
use cpp_lox.Vm.{Vm, CallFrame, new_frame, Outcome, function_of, push, pop, peek, Memory}
use cpp_lox.Upvalue

-- What the machine calls: the parts of the objects that `Object` leaves out, the native functions,
-- the strings of the allocator, and the arithmetic of doubles on their bits.
pub record Env : Type 0 where
  pub arity : ℕ → ℕ
  pub code : ℕ → List ℕ
  pub upvalue_count : ℕ → ℕ
  pub native : ℕ → Vm → ℕ → ℕ → Value × Bool × Memory
  pub text : ℕ → List ℕ
  pub intern : List ℕ → ℕ
  pub real_of : ℕ → ℕ
  pub real_add : ℕ → ℕ → ℕ
  pub real_sub : ℕ → ℕ → ℕ
  pub real_mul : ℕ → ℕ → ℕ
  pub real_div : ℕ → ℕ → ℕ
  pub real_less : ℕ → ℕ → Bool
  pub real_equal : ℕ → ℕ → Bool
  pub real_near : ℕ → ℕ → Bool
  pub real_negate : ℕ → ℕ
  pub constant_string_init : ℕ

-- the addresses that the allocator gives in one step: of an object, and of the captured upvalues
pub record Fresh : Type 0 where
  pub object_at : ℕ
  pub upvalue_at : ℕ → ℕ

pub record Machine : Type 0 where
  pub vm : Vm
  pub context : Context ℕ
  pub upvalues : Upvalue.Memory
  pub open_upvalues : ℕ
  pub output : List Value

pub data Result {ℓ} (A : Type ℓ) : Type ℓ where
  ok : A → Machine → Result A
  runtime_error finished : Machine → Result A
  throws loops undefined : Result A

abbrev pub Run {ℓ} : Type ℓ → Type ℓ
Run A = Machine → Result A

infixl 5 ◌>>=◌ ◌>>◌
unfoldable pub ◌>>=◌ {ℓ κ} : {A : Type ℓ} {B : Type κ} → Run A → (A → Run B) → Run B
◌>>=◌ run next s = elim (run s) [
  | ok a s' ↦ next a s'
  | runtime_error s' ↦ runtime_error s'
  | finished s' ↦ finished s'
  | throws ↦ throws
  | loops ↦ loops
  | undefined ↦ undefined
]

abbrev pub ◌>>◌ {ℓ} : {B : Type ℓ} → Run (Unit {0}) → Run B → Run B
run >> next = run >>= λ _. next

unfoldable pub return {ℓ} : {A : Type ℓ} → A → Run A
return a s = ok a s

unfoldable pub fail {ℓ} : {A : Type ℓ} → Run A
fail s = runtime_error s

unfoldable pub throw {ℓ} : {A : Type ℓ} → Run A
throw s = throws

unfoldable pub get_state : Run Machine
get_state s = ok s s

unfoldable pub put_state : Machine → Run (Unit {0})
put_state s' s = ok tt s'

-- a run of the stack, with the stack put back
abbrev pub with_vm : Machine → Outcome Vm → Result (Unit {0})
with_vm s (Outcome.returns vm) = ok tt (record s { vm = vm })
with_vm s Outcome.throws = throws
with_vm s Outcome.loops = loops

unfoldable pub push_value : Value → Run (Unit {0})
push_value v s = with_vm s (push v s.vm)

-- a value of the stack, with the stack that is left
abbrev pub with_value : Machine → Outcome (Value × Vm) → Result Value
with_value s (Outcome.returns (v, vm)) = ok v (record s { vm = vm })
with_value s Outcome.throws = throws
with_value s Outcome.loops = loops

unfoldable pub pop_value : Run Value
pop_value s = with_value s (pop s.vm)

abbrev pub with_peek : Machine → Outcome Value → Result Value
with_peek s (Outcome.returns v) = ok v s
with_peek s Outcome.throws = throws
with_peek s Outcome.loops = loops

unfoldable pub peek_value : ℕ → Run Value
peek_value offset s = with_peek s (peek offset s.vm)

-- `current_frame`, which is `&frames[frame_count - 1]` wherever an instruction starts
unfoldable pub current_frame : Machine → CallFrame
current_frame s = get_or s.vm.frames (s.vm.frame_count - 1) new_frame

-- the current frame is read
unfoldable pub in_frame : Run (Unit {0})
in_frame s = if s.vm.frame_count == 0 then undefined else ok tt s

unfoldable pub set_ip : ℕ → Machine → Machine
unfolding current_frame
set_ip ip s = record s {
  vm = record (s.vm) {
    frames = set s.vm.frames (s.vm.frame_count - 1) (record (current_frame s) { ip = ip });
  };
}

abbrev pub object_of : Machine → ℕ → Object
object_of s a = s.vm.memory a

-- the pointer to the slot `i` is read or written
unfoldable pub in_stack : ℕ → Run (Unit {0})
in_stack i s = if ltb i (length s.vm.evalstack) then ok tt s else undefined

-- a write through a pointer into the stack
unfoldable pub set_slot : ℕ → Value → Machine → Machine
set_slot i v s = record s { vm = record (s.vm) { evalstack = set s.vm.evalstack i v } }

unfoldable pub set_object : ℕ → Object → Machine → Machine
set_object a o s = record s {
  vm = record (s.vm) { memory = λ x. if x == a then o else s.vm.memory x };
}

-- a loop's result on the side of a table, where `none` is a probe that does not end
unfoldable pub lookup {ℓ} : {A : Type ℓ} → Option A → Run A
lookup (some a) s = ok a s
lookup none s = loops

-- `if (found)`
unfoldable pub given : {A V : Type 0} → Option V → (V → Run A) → Run A → Run A
given (some v) found missing = found v
given none found missing = missing

module _ (env : Env) where
  -- the code of the function of the current frame
  unfoldable pub current_code : Machine → List ℕ
  unfolding current_frame
  current_code s = env.code (function_of (s.vm.memory (current_frame s).closure))

  unfoldable pub next_byte : Run ℕ
  unfolding current_frame current_code
  next_byte s =
      let (byte, ip) = read_byte (current_code s) (current_frame s).ip in ok byte (set_ip ip s)

  unfoldable pub next_word : Run ℕ
  unfolding current_frame current_code
  next_word s =
      let (word, ip) = read_uint16_le (current_code s) (current_frame s).ip in ok word (set_ip ip s)

  -- `get_value_unchecked`
  abbrev pub constants_of : Object → List Value
  constants_of (function constants name) = constants
  constants_of string = []
  constants_of native_function = []
  constants_of (upvalue next v) = []
  constants_of (class name init_method methods) = []
  constants_of (instance_of class_ fields) = []
  constants_of (bound_method receiver method) = []
  constants_of (closure f upvalues) = []
  constants_of (list values) = []
  constants_of (map_of table) = []

  unfoldable pub constant : ℕ → Run Value
  unfolding current_frame
  constant index s =
      let f = function_of (s.vm.memory (current_frame s).closure) in
      ok (get_or (constants_of (s.vm.memory f)) index nil) s

  unfoldable pub read_constant : Run Value
  unfolding next_byte constant
  read_constant = next_byte >>= constant

  unfoldable pub read_constant_long : Run Value
  unfolding next_word constant
  read_constant_long = next_word >>= constant
