-- ===== src/Execute/Operators.antt =====
-- src/vm/vm.cpp, `execute`: the instructions on the values on top of the stack, and the jumps.
use cpp_lox.Prelude.{ℕ, ◌+◌, ◌-◌, Bool, true, false, not, ◌&&◌, ◌||◌, ◌∷◌, ◌++◌, if◌then◌else◌}
use cpp_lox.Object.{Value, boolean, number_real, number_int, object, string, list}
use cpp_lox.Vm.{Memory}
use cpp_lox.Execute.State.{
  Env, Run, ok, ◌>>=◌, ◌>>◌, return, fail, get_state, put_state, push_value, pop_value, peek_value,
  current_frame, set_ip, set_object, set_slot, next_word, read_constant, read_constant_long,
}
use cpp_lox.Execute.Values.{
  int_add, int_sub, int_mul, int_negate, int_less, is_number, is_real, is_falsey, is_a,
  string_object, list_object, values_of, coerce_real, equal_values,
}
use cpp_lox.Vm.{as_object}

-- a test of the two values on top, the first first
unfoldable pub both_are : (Memory → Value → Bool) → Run Bool
both_are test = do
  s ← get_state
  b ← peek_value 0
  if (test s.vm.memory b)
      then (do a ← peek_value 1; return (test s.vm.memory a))
      else (return false)

abbrev pub jump_by : ℕ → Run (Unit {0})
jump_by offset s = ok tt (set_ip ((current_frame s).ip + offset) s)

abbrev pub jump_if : Bool → ℕ → Run (Unit {0})
jump_if true offset = jump_by offset
jump_if false offset = return tt

-- a jump behind the start of the code, which the compiler does not emit, stops there
abbrev pub jump_back : ℕ → Run (Unit {0})
jump_back offset s = ok tt (set_ip ((current_frame s).ip - offset) s)

unfoldable pub run_not : Run (Unit {0})
run_not = do v ← pop_value; push_value (boolean (is_falsey v))

unfoldable pub run_pop_top : Run (Unit {0})
run_pop_top = do v ← pop_value; return tt

-- The text of a value is not modelled: the output is the list of the values, the last first.
unfoldable pub run_print : Run (Unit {0})
run_print = do v ← pop_value; s ← get_state; put_state (record s { output = v ∷ s.output })

unfoldable pub run_dup_top : Run (Unit {0})
run_dup_top = peek_value 0 >>= push_value

module _ (env : Env) where
  abbrev pub compute : (ℕ → ℕ → Value) → (ℕ → ℕ → Value) → Value → Value → Value
  compute on_int on_real (number_int a) (number_int b) = on_int a b
  compute on_int on_real a b = on_real (coerce_real env a) (coerce_real env b)

  -- `BINARY_OP`
  unfoldable pub binary_op : (ℕ → ℕ → Value) → (ℕ → ℕ → Value) → Run (Unit {0})
  binary_op on_int on_real = do
    numbers ← both_are (λ memory. is_number)
    if numbers
        then (do b ← pop_value; a ← pop_value; push_value (compute on_int on_real a b))
        else (fail)

  unfoldable pub run_subtract : Run (Unit {0})
  run_subtract = binary_op (λ a b. number_int (int_sub a b)) (λ a b. number_real (env.real_sub a b))

  unfoldable pub run_multiply : Run (Unit {0})
  run_multiply = binary_op (λ a b. number_int (int_mul a b)) (λ a b. number_real (env.real_mul a b))

  -- two integers are divided as doubles
  unfoldable pub run_divide : Run (Unit {0})
  run_divide =
      binary_op (λ a b. number_real (env.real_div (env.real_of a) (env.real_of b)))
        (λ a b. number_real (env.real_div a b))

  unfoldable pub run_less : Run (Unit {0})
  run_less = binary_op (λ a b. boolean (int_less a b)) (λ a b. boolean (env.real_less a b))

  unfoldable pub run_greater : Run (Unit {0})
  run_greater = binary_op (λ a b. boolean (int_less b a)) (λ a b. boolean (env.real_less b a))

  unfoldable pub add_lists : ℕ → Run (Unit {0})
  add_lists fresh = do
    s ← get_state
    b ← peek_value 0
    a ← peek_value 1
    put_state (
        set_object fresh
          (list (values_of (s.vm.memory (as_object a)) ++ values_of (s.vm.memory (as_object b)))) s)
    top ← pop_value
    below ← pop_value
    push_value (object fresh)

  unfoldable pub add_strings : Run (Unit {0})
  add_strings = do
    s ← get_state
    b ← peek_value 0
    a ← peek_value 1
    let joined = env.intern (env.text (as_object a) ++ env.text (as_object b))
    put_state (set_object joined string s)
    top ← pop_value
    below ← pop_value
    push_value (object joined)

  unfoldable pub run_add : ℕ → Run (Unit {0})
  run_add fresh = do
    lists ← both_are (is_a list_object)
    if lists then (add_lists fresh) else (do
      strings ← both_are (is_a string_object)
      if strings
          then (add_strings)
          else (binary_op (λ a b. number_int (int_add a b))
              (λ a b. number_real (env.real_add a b))))

  abbrev pub negated : Value → Value
  negated (number_int i) = number_int (int_negate i)
  negated (number_real d) = number_real (env.real_negate d)
  negated v = v

  -- in place
  unfoldable pub run_negate : Run (Unit {0})
  run_negate = do
    v ← peek_value 0
    s ← get_state
    if (is_number v) then (put_state (set_slot (s.vm.stack_top - 1) (negated v) s)) else (fail)

  unfoldable pub run_equal : Run (Unit {0})
  run_equal = do
    b ← pop_value
    a ← pop_value
    s ← get_state
    push_value (
        boolean (
          if is_number a && is_number b && (is_real a || is_real b)
          then env.real_equal (coerce_real env a) (coerce_real env b)
          else equal_values env s.vm.memory a b))

  unfoldable pub run_load_constant : Run (Unit {0})
  run_load_constant = read_constant env >>= push_value

  unfoldable pub run_load_constant_long : Run (Unit {0})
  run_load_constant_long = read_constant_long env >>= push_value

  unfoldable pub run_jump_if_false : Run (Unit {0})
  run_jump_if_false = do offset ← next_word env; v ← peek_value 0; jump_if (is_falsey v) offset

  unfoldable pub run_jump_if_true : Run (Unit {0})
  run_jump_if_true = do offset ← next_word env; v ← peek_value 0; jump_if (not (is_falsey v)) offset

  unfoldable pub run_pop_jump_if_false : Run (Unit {0})
  run_pop_jump_if_false = do offset ← next_word env; v ← pop_value; jump_if (is_falsey v) offset

  unfoldable pub run_jump_forward : Run (Unit {0})
  run_jump_forward = next_word env >>= jump_by

  unfoldable pub run_jump_backward : Run (Unit {0})
  run_jump_backward = next_word env >>= jump_back
