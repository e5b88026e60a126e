-- ===== src/Execute/Keeps.antt =====
-- The bounds of the stack and of the frames, and the rules that carry them through a run.
use cpp_lox.Prelude.{
  ℕ, zero, suc, [], ◌∷◌, if-cases, ◌+◌, ◌-◌, ◌≤◌, ◌≡◌, refl, Bool, true, false, Option, none, some,
  List, length, get_or, set, length-set, arith, ◌==◌, if◌then◌else◌, ltb,
}
use cpp_lox.Object.{Value, Object}
use cpp_lox.Vm.{Vm, CallFrame, new_frame, max_frame_size, push, pop, peek}
use cpp_lox.Execute.State.{
  Machine, Run, Result, ok, runtime_error, finished, throws, loops, undefined, in_stack, in_frame,
  ◌>>=◌, return, fail, throw, get_state, given, put_state, push_value, pop_value, peek_value,
  set_object, set_ip, set_slot, current_frame, with_vm, with_value, with_peek, Env, next_byte,
  next_word, constant, read_constant, read_constant_long, lookup,
}

-- The stack keeps its vector of `room` slots and the frames their array of 256, and no frame starts
-- above the stack.
pub record Fits (room : ℕ) (vm : Vm) : Type 0 where
  pub stack_length : length vm.evalstack ≡ room
  pub top : vm.stack_top ≤ room
  pub frame_array : length vm.frames ≡ max_frame_size
  pub few : vm.frame_count ≤ max_frame_size
  pub slots : (i : ℕ) → (get_or vm.frames i new_frame).slots ≤ room

abbrev pub IsSafe : ℕ → Machine → Type 0
IsSafe room s = Fits room s.vm

-- A run that leaves a machine leaves a safe one.
abbrev pub Leaves {ℓ} : {A : Type ℓ} → ℕ → Result A → Type 0
Leaves room (ok a s) = IsSafe room s
Leaves room (runtime_error s) = IsSafe room s
Leaves room (finished s) = IsSafe room s
Leaves room throws = Unit
Leaves room loops = Unit
Leaves room undefined = Unit

pub record Keeps {A : Type 0} (room : ℕ) (run : Run A) : Type 0 where
  pub at : (s : Machine) → IsSafe room s → Leaves room (run s)

-- the rule of a run, with what it starts from
module _ (room : ℕ) where
  Leaves-elim :
      {A B : Type 0} (r : Result A) (f : A → Run B)
      → Leaves room r
      → ((a : A) → Keeps room (f a))
      → Leaves room (elim r as (λ x. Result B) [
        | ok a s ↦ f a s
        | runtime_error s ↦ runtime_error s
        | finished s ↦ finished s
        | throws ↦ throws
        | loops ↦ loops
        | undefined ↦ undefined
      ])
  Leaves-elim (ok a s) f h k = (k a).at s h
  Leaves-elim (runtime_error s) f h k = h
  Leaves-elim (finished s) f h k = h
  Leaves-elim throws f h k = tt
  Leaves-elim loops f h k = tt
  Leaves-elim undefined f h k = tt

  pub Keeps-bind :
      {A B : Type 0} (m : Run A) (f : A → Run B)
      → Keeps room m
      → ((a : A) → Keeps room (f a))
      → Keeps room (m >>= f)
  unfolding ◌>>=◌
  Keeps-bind m f h k = record { at = λ s safe. Leaves-elim (m s) f (h.at s safe) k }

  -- the machine that is read is the safe one
  pub Keeps-state :
      {B : Type 0} (f : Machine → Run B)
      → ((s : Machine) → IsSafe room s → Keeps room (f s))
      → Keeps room (get_state >>= f)
  unfolding ◌>>=◌ get_state
  Keeps-state f k = record { at = λ s safe. (k s safe).at s safe }

  pub Keeps-put : (s : Machine) → IsSafe room s → Keeps room (put_state s)
  unfolding put_state
  Keeps-put s h = record { at = λ old safe. h }

  pub Keeps-return : {A : Type 0} (a : A) → Keeps room (return a)
  unfolding return
  Keeps-return a = record { at = λ s safe. safe }

  pub Keeps-fail : {A : Type 0} → Keeps room (fail {A = A})
  unfolding fail
  Keeps-fail = record { at = λ s safe. safe }

  pub Keeps-throw : {A : Type 0} → Keeps room (throw {A = A})
  unfolding throw
  Keeps-throw = record { at = λ s safe. tt }

  pub Keeps-finished : {A : Type 0} → Keeps {A = A} room finished
  Keeps-finished = record { at = λ s safe. safe }

  pub Keeps-lookup : {A : Type 0} (o : Option A) → Keeps room (lookup o)
  unfolding lookup
  Keeps-lookup (some a) = record { at = λ s safe. safe }
  Keeps-lookup none = record { at = λ s safe. tt }

  pub Keeps-if :
      {A : Type 0} (b : Bool) (x y : Run A)
      → Keeps room x
      → Keeps room y
      → Keeps room (if b then x else y)
  Keeps-if true x y h k = h
  Keeps-if false x y h k = k

  pub Keeps-given :
      {A V : Type 0} (o : Option V) (x : V → Run A) (y : Run A)
      → ((v : V) → Keeps room (x v))
      → Keeps room y
      → Keeps room (given o x y)
  unfolding given
  Keeps-given (some v) x y h k = h v
  Keeps-given none x y h k = k

  pub Fits-stack :
      (vm : Vm) (evalstack : List Value) (top : ℕ)
      → Fits room vm
      → length evalstack ≡ length vm.evalstack
      → top ≤ room
      → Fits room (record vm { evalstack = evalstack; stack_top = top })
  Fits-stack vm evalstack top h same low = record {
    stack_length = omega (arith, same, h.stack_length);
    top = low;
    frame_array = h.frame_array;
    few = h.few;
    slots = h.slots;
  }

  pub push-Keeps : (v : Value) → Keeps room (push_value v)
  unfolding push_value push
  push-Keeps v = record {
    at = λ s h.
        if-cases (λ o. Leaves room (with_vm s o)) (s.vm.stack_top == length s.vm.evalstack)
          (λ full. tt)
          (λ free.
            Fits-stack s.vm _ _ h (length-set s.vm.evalstack s.vm.stack_top v)
              (ground (arith, h.stack_length, h.top)));
  }

  pub pop-Keeps : Keeps room pop_value
  unfolding pop_value pop
  pop-Keeps = record {
    at = λ s h.
        if-cases (λ o. Leaves room (with_value s o)) (s.vm.stack_top == 0) (λ empty. tt)
          (λ some_value. Fits-stack s.vm _ _ h refl (omega (arith, h.top)));
  }

  pub peek-Keeps : (n : ℕ) → Keeps room (peek_value n)
  unfolding peek_value peek
  peek-Keeps n = record {
    at = λ s h.
        if-cases (λ o. Leaves room (with_peek s o)) (ltb s.vm.stack_top (n + 1)) (λ low. tt)
          (λ high. h);
  }

  pub in_stack-Keeps : (i : ℕ) → Keeps room (in_stack i)
  unfolding in_stack
  in_stack-Keeps i = record {
    at = λ s h.
        if-cases (λ (r : Result (Unit {0})). Leaves room r) (ltb i (length s.vm.evalstack))
          (λ inside. h) (λ outside. tt);
  }

  pub in_frame-Keeps : Keeps room in_frame
  unfolding in_frame
  in_frame-Keeps = record {
    at = λ s h.
        if-cases (λ (r : Result (Unit {0})). Leaves room r) (s.vm.frame_count == 0)
          (λ none_left. tt) (λ some_left. h);
  }

  -- Safe machines from safe machines
  pub object-IsSafe :
      (a : ℕ) (o : Object) (s : Machine) → IsSafe room s → IsSafe room (set_object a o s)
  unfolding set_object
  object-IsSafe a o s h = record {
    stack_length = h.stack_length;
    top = h.top;
    frame_array = h.frame_array;
    few = h.few;
    slots = h.slots;
  }

  pub slot-IsSafe : (i : ℕ) (v : Value) (s : Machine) → IsSafe room s → IsSafe room (set_slot i v s)
  unfolding set_slot
  slot-IsSafe i v s h = Fits-stack s.vm _ _ h (length-set s.vm.evalstack i v) h.top

  pub set-slots :
      (frames : List CallFrame) (i : ℕ) (f : CallFrame) (j : ℕ)
      → ((k : ℕ) → (get_or frames k new_frame).slots ≤ room)
      → f.slots ≤ room
      → (get_or (set frames i f) j new_frame).slots ≤ room
  set-slots [] i f j all low = all j
  set-slots (x ∷ xs) zero f zero all low = low
  set-slots (x ∷ xs) zero f (suc j) all low = all (suc j)
  set-slots (x ∷ xs) (suc i) f zero all low = all zero
  set-slots (x ∷ xs) (suc i) f (suc j) all low = set-slots xs i f j (λ k. all (suc k)) low

  pub ip-IsSafe : (ip : ℕ) (s : Machine) → IsSafe room s → IsSafe room (set_ip ip s)
  unfolding set_ip current_frame
  ip-IsSafe ip s h = record {
    stack_length = h.stack_length;
    top = h.top;
    frame_array = omega (
      arith,
      h.frame_array,
      length-set s.vm.frames (s.vm.frame_count - 1) (record (current_frame s) { ip = ip }),
    );
    few = h.few;
    slots = λ j.
        set-slots s.vm.frames (s.vm.frame_count - 1) _ j h.slots (h.slots (s.vm.frame_count - 1));
  }

  module _ (env : Env) where
    pub byte-Keeps : Keeps room (next_byte env)
    unfolding next_byte
    byte-Keeps = record { at = λ s h. ip-IsSafe _ s h }

    pub word-Keeps : Keeps room (next_word env)
    unfolding next_word
    word-Keeps = record { at = λ s h. ip-IsSafe _ s h }

    constant-Keeps : (i : ℕ) → Keeps room (constant env i)
    unfolding constant
    constant-Keeps i = record { at = λ s h. h }

    pub read_constant-Keeps : Keeps room (read_constant env)
    unfolding read_constant
    read_constant-Keeps = Keeps-bind _ _ byte-Keeps constant-Keeps

    pub read_constant_long-Keeps : Keeps room (read_constant_long env)
    unfolding read_constant_long
    read_constant_long-Keeps = Keeps-bind _ _ word-Keeps constant-Keeps

pub ruleset keeps_rules = (
  Keeps-bind, Keeps-state, Keeps-put, Keeps-return, Keeps-fail, Keeps-throw, Keeps-finished,
  Keeps-lookup, Keeps-if, Keeps-given, push-Keeps, pop-Keeps, peek-Keeps, in_stack-Keeps,
  object-IsSafe, slot-IsSafe, ip-IsSafe, byte-Keeps, word-Keeps, read_constant-Keeps,
  read_constant_long-Keeps,
)
