-- ===== src/Execute/Dispatch.antt =====
-- src/vm/vm.cpp, `execute`: the switch over the instructions, and the loop around it.
use cpp_lox.Prelude.{ℕ, zero, suc, Option, none, some, ◌^◌, ◌-◌, true, false}
use cpp_lox.HashMap.Keys.{Key, Default}
use cpp_lox.OpCode.{
  OpCode, decode, op_invalid, op_return, op_load_constant, op_load_constant_long, op_negate, op_add,
  op_subtract, op_multiply, op_divide, op_nil, op_uninitialized, op_true, op_false, op_not,
  op_equal, op_greater, op_less, op_print, op_pop_top, op_define_global, op_store_global,
  op_load_global, op_store_local, op_load_local, op_store_upvalue, op_load_upvalue,
  op_store_property, op_load_property, op_load_property_safe, op_load_super, op_load_index,
  op_store_index, op_close_upvalue, op_jump_if_false, op_jump_if_true, op_pop_jump_if_false,
  op_jump_forward, op_jump_backward, op_dup_top, op_call, op_class, op_invoke, op_super_invoke,
  op_inherit, op_closure, op_zero, op_minus_one, op_one, op_method, op_list, op_list_append, op_map,
  op_map_add,
}
use cpp_lox.Object.{Value, nil, uninitialized, boolean, number_int}
use cpp_lox.Execute.State.{
  Env, Fresh, Run, loops, ◌>>=◌, ◌>>◌, throw, push_value, in_frame, next_byte,
}
use cpp_lox.Execute.Operators.{
  run_add, run_divide, run_dup_top, run_equal, run_greater, run_jump_backward, run_jump_forward,
  run_jump_if_false, run_jump_if_true, run_less, run_load_constant, run_load_constant_long,
  run_multiply, run_negate, run_not, run_pop_jump_if_false, run_pop_top, run_print, run_subtract,
}
use cpp_lox.Execute.Variables.{
  run_close_upvalue, run_closure, run_define_global, run_load_global, run_load_local,
  run_load_upvalue, run_return, run_store_global, run_store_local, run_store_upvalue,
}
use cpp_lox.Execute.Classes.{
  run_call, run_class, run_inherit, run_invoke, run_load_property, run_load_property_safe,
  run_load_super, run_method, run_store_property, run_super_invoke,
}
use cpp_lox.Execute.Indices.{
  run_list, run_list_append, run_load_index, run_map, run_map_add, run_store_index,
}

module _ (env : Env) ⦃name_key : Key ℕ⦄ ⦃index : Default ℕ⦄ ⦃key : Key Value⦄
    ⦃value : Default Value⦄ where
  -- the cases of the switch
  unfoldable pub run_op : Fresh → OpCode → Run (Unit {0})
  run_op fresh op_invalid = throw
  run_op fresh op_return = run_return
  run_op fresh op_load_constant = run_load_constant env
  run_op fresh op_load_constant_long = run_load_constant_long env
  run_op fresh op_negate = run_negate env
  run_op fresh op_add = run_add env fresh.object_at
  run_op fresh op_subtract = run_subtract env
  run_op fresh op_multiply = run_multiply env
  run_op fresh op_divide = run_divide env
  run_op fresh op_nil = push_value nil
  run_op fresh op_uninitialized = push_value uninitialized
  run_op fresh op_true = push_value (boolean true)
  run_op fresh op_false = push_value (boolean false)
  run_op fresh op_not = run_not
  run_op fresh op_equal = run_equal env
  run_op fresh op_greater = run_greater env
  run_op fresh op_less = run_less env
  run_op fresh op_print = run_print
  run_op fresh op_pop_top = run_pop_top
  run_op fresh op_define_global = run_define_global env
  run_op fresh op_store_global = run_store_global env
  run_op fresh op_load_global = run_load_global env
  run_op fresh op_store_local = run_store_local env
  run_op fresh op_load_local = run_load_local env
  run_op fresh op_store_upvalue = run_store_upvalue env
  run_op fresh op_load_upvalue = run_load_upvalue env
  run_op fresh op_store_property = run_store_property env
  run_op fresh op_load_property = run_load_property env fresh.object_at
  run_op fresh op_load_property_safe = run_load_property_safe env fresh.object_at
  run_op fresh op_load_super = run_load_super env fresh.object_at
  run_op fresh op_load_index = run_load_index env
  run_op fresh op_store_index = run_store_index env
  run_op fresh op_close_upvalue = run_close_upvalue env
  run_op fresh op_jump_if_false = run_jump_if_false env
  run_op fresh op_jump_if_true = run_jump_if_true env
  run_op fresh op_pop_jump_if_false = run_pop_jump_if_false env
  run_op fresh op_jump_forward = run_jump_forward env
  run_op fresh op_jump_backward = run_jump_backward env
  run_op fresh op_dup_top = run_dup_top
  run_op fresh op_call = run_call env fresh.object_at
  run_op fresh op_class = run_class env fresh.object_at
  run_op fresh op_invoke = run_invoke env fresh.object_at
  run_op fresh op_super_invoke = run_super_invoke env
  run_op fresh op_inherit = run_inherit env
  run_op fresh op_closure = run_closure env fresh
  run_op fresh op_zero = push_value (number_int 0)
  run_op fresh op_minus_one = push_value (number_int (2 ^ 64 - 1))
  run_op fresh op_one = push_value (number_int 1)
  run_op fresh op_method = run_method env
  run_op fresh op_list = run_list env fresh.object_at
  run_op fresh op_list_append = run_list_append env
  run_op fresh op_map = run_map env fresh.object_at
  run_op fresh op_map_add = run_map_add env

  -- `default:`
  abbrev pub run_instruction : Fresh → Option OpCode → Run (Unit {0})
  run_instruction fresh none = throw
  run_instruction fresh (some op) = run_op fresh op

  -- one round of the loop of `execute`
  unfoldable pub step : Fresh → Run (Unit {0})
  step fresh =
      in_frame >> next_byte env >>= λ instruction. run_instruction fresh (decode instruction)

  abbrev pub out_of_rounds : Run (Unit {0})
  out_of_rounds s = loops

  -- The loop, for a number of rounds; `loops` where they do not suffice. Round by round the
  -- allocator gives the addresses `fresh`.
  unfoldable pub execute : ℕ → (ℕ → Fresh) → Run (Unit {0})
  execute zero fresh = out_of_rounds
  execute (suc rounds) fresh = step (fresh zero) >>= λ done. execute rounds (λ n. fresh (suc n))
