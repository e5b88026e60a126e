-- ===== src/Execute/Safe/Operators.antt =====
-- The instructions of Execute/Operators keep the bounds.
use cpp_lox.Prelude.{ℕ, Bool, true, false}
use cpp_lox.Object.{Value}
use cpp_lox.Vm.{Memory}
use cpp_lox.Execute.State.{Env}
use cpp_lox.Execute.Keeps.{Keeps, ip-IsSafe, keeps_rules}
use cpp_lox.Execute.Operators.{
  both_are, binary_op, run_subtract, run_multiply, run_divide, run_less, run_greater, add_lists,
  add_strings, run_add, run_negate, run_equal, run_not, run_pop_top, run_print, run_dup_top,
  run_load_constant, run_load_constant_long, jump_by, jump_if, jump_back, run_jump_if_false,
  run_jump_if_true, run_pop_jump_if_false, run_jump_forward, run_jump_backward,
}

module _ (room : ℕ) where
  both_are-Keeps : (test : Memory → Value → Bool) → Keeps room (both_are test)
  unfolding both_are
  both_are-Keeps test = search keeps_rules depth 12

  jump_by-Keeps : (offset : ℕ) → Keeps room (jump_by offset)
  jump_by-Keeps offset = record { at = λ s h. ip-IsSafe room _ s h }

  jump_back-Keeps : (offset : ℕ) → Keeps room (jump_back offset)
  jump_back-Keeps offset = record { at = λ s h. ip-IsSafe room _ s h }

  jump_if-Keeps : (b : Bool) (offset : ℕ) → Keeps room (jump_if b offset)
  jump_if-Keeps true offset = jump_by-Keeps offset
  jump_if-Keeps false offset = search keeps_rules depth 12

  module _ (env : Env) where
    binary_op-Keeps : (on_int on_real : ℕ → ℕ → Value) → Keeps room (binary_op env on_int on_real)
    unfolding binary_op
    binary_op-Keeps on_int on_real = search (keeps_rules, both_are-Keeps) depth 12

    add_lists-Keeps : (fresh : ℕ) → Keeps room (add_lists env fresh)
    unfolding add_lists
    add_lists-Keeps fresh = search keeps_rules depth 12

    add_strings-Keeps : Keeps room (add_strings env)
    unfolding add_strings
    add_strings-Keeps = search keeps_rules depth 12

    pub run_add-Keeps : (fresh : ℕ) → Keeps room (run_add env fresh)
    unfolding run_add
    run_add-Keeps fresh =
        search (keeps_rules, both_are-Keeps, add_lists-Keeps, add_strings-Keeps, binary_op-Keeps)
          depth 12

    pub run_subtract-Keeps : Keeps room (run_subtract env)
    unfolding run_subtract
    run_subtract-Keeps = binary_op-Keeps _ _

    pub run_multiply-Keeps : Keeps room (run_multiply env)
    unfolding run_multiply
    run_multiply-Keeps = binary_op-Keeps _ _

    pub run_divide-Keeps : Keeps room (run_divide env)
    unfolding run_divide
    run_divide-Keeps = binary_op-Keeps _ _

    pub run_less-Keeps : Keeps room (run_less env)
    unfolding run_less
    run_less-Keeps = binary_op-Keeps _ _

    pub run_greater-Keeps : Keeps room (run_greater env)
    unfolding run_greater
    run_greater-Keeps = binary_op-Keeps _ _

    pub run_negate-Keeps : Keeps room (run_negate env)
    unfolding run_negate
    run_negate-Keeps = search keeps_rules depth 12

    pub run_equal-Keeps : Keeps room (run_equal env)
    unfolding run_equal
    run_equal-Keeps = search keeps_rules depth 12

    pub run_not-Keeps : Keeps room (run_not)
    unfolding run_not
    run_not-Keeps = search keeps_rules depth 12

    pub run_pop_top-Keeps : Keeps room (run_pop_top)
    unfolding run_pop_top
    run_pop_top-Keeps = search keeps_rules depth 12

    pub run_print-Keeps : Keeps room (run_print)
    unfolding run_print
    run_print-Keeps = search keeps_rules depth 12

    pub run_dup_top-Keeps : Keeps room (run_dup_top)
    unfolding run_dup_top
    run_dup_top-Keeps = search keeps_rules depth 12

    pub run_load_constant-Keeps : Keeps room (run_load_constant env)
    unfolding run_load_constant
    run_load_constant-Keeps = search keeps_rules depth 12

    pub run_load_constant_long-Keeps : Keeps room (run_load_constant_long env)
    unfolding run_load_constant_long
    run_load_constant_long-Keeps = search keeps_rules depth 12

    pub run_jump_if_false-Keeps : Keeps room (run_jump_if_false env)
    unfolding run_jump_if_false
    run_jump_if_false-Keeps = search (keeps_rules, jump_if-Keeps) depth 12

    pub run_jump_if_true-Keeps : Keeps room (run_jump_if_true env)
    unfolding run_jump_if_true
    run_jump_if_true-Keeps = search (keeps_rules, jump_if-Keeps) depth 12

    pub run_pop_jump_if_false-Keeps : Keeps room (run_pop_jump_if_false env)
    unfolding run_pop_jump_if_false
    run_pop_jump_if_false-Keeps = search (keeps_rules, jump_if-Keeps) depth 12

    pub run_jump_forward-Keeps : Keeps room (run_jump_forward env)
    unfolding run_jump_forward
    run_jump_forward-Keeps = search (keeps_rules, jump_by-Keeps) depth 12

    pub run_jump_backward-Keeps : Keeps room (run_jump_backward env)
    unfolding run_jump_backward
    run_jump_backward-Keeps = search (keeps_rules, jump_back-Keeps) depth 12
