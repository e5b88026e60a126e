-- ===== src/Execute/Program.antt =====
-- src/vm/vm.cpp: `run`, `define_native_function`, and what include/vm.hpp has to clear the machine.
use cpp_lox.Prelude.{ℕ, true, List, replicate}
use cpp_lox.HashMap.Keys.{Key, Default}
use cpp_lox.Object.{Value, object, string, native_function, closure}
use cpp_lox.Context.{get_global, get_internal_value}
use cpp_lox.Vm.{call, as_object}
use cpp_lox.Execute.State.{
  Env, Fresh, Machine, Run, ok, ◌>>=◌, ◌>>◌, return, get_state, put_state, push_value, pop_value,
  peek_value, set_object, lookup,
}
use cpp_lox.Execute.Variables.{set_global}
use cpp_lox.Execute.Dispatch.{execute}

unfoldable pub clear_evaluation_stack : Machine → Machine
clear_evaluation_stack s = record s { vm = record (s.vm) { stack_top = 0 } }

unfoldable pub clear_frames : Machine → Machine
clear_frames s = record s { vm = record (s.vm) { frame_count = 0 } }

module _ (env : Env) where
  -- the result of `call` is not looked at
  unfoldable pub enter_script : ℕ → Run (Unit {0})
  enter_script made s = ok tt (record s { vm = (call env.arity made 0 s.vm).1 })

  unfoldable pub start : ℕ → ℕ → Run (Unit {0})
  start fresh function = do
    push_value (object function)
    s ← get_state
    put_state (set_object fresh (closure function (replicate (env.upvalue_count function) 0)) s)
    script ← pop_value
    push_value (object fresh)
    enter_script fresh

  module _ ⦃name_key : Key ℕ⦄ ⦃index : Default ℕ⦄ where
    module _ ⦃key : Key Value⦄ ⦃value : Default Value⦄ where
      -- `fresh` has the addresses of `start`, and then those of each round
      unfoldable pub run : ℕ → Fresh → (ℕ → Fresh) → ℕ → Run (Unit {0})
      run rounds first fresh function = start first.object_at function >> execute env rounds fresh

    -- `made` is the address of the native function
    unfoldable pub define_native_function : ℕ → List ℕ → Run (Unit {0})
    define_native_function made name = do
      let name_at = env.intern name
      s ← get_state
      put_state (set_object name_at string s)
      push_value (object name_at)
      named ← get_state
      put_state (set_object made native_function named)
      push_value (object made)
      global_name ← peek_value 1
      v ← peek_value 0
      before ← get_state
      found ← lookup (get_global before.context (as_object global_name))
      put_state (
          set_global found.0
            (record (get_internal_value found.1 found.0) {
              value = v;
              initialized = true;
              defined = true;
              is_created_by_runtime = true;
            })
            (record before { context = found.1 }))
      function ← pop_value
      popped ← pop_value
      return tt
