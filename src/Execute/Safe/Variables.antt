-- ===== src/Execute/Safe/Variables.antt =====
-- The instructions of Execute/Variables keep the bounds.
use cpp_lox.Prelude.{ℕ, zero, suc, ◌-◌, arith}
use cpp_lox.HashMap.Keys.{Key, Default}
use cpp_lox.Object.{Value}
use cpp_lox.Context.{GlobalValue}
use cpp_lox.Upvalue.{Location, slot_at, own}
use cpp_lox.Execute.State.{Env, Fresh, Machine, current_frame}
use cpp_lox.Execute.Keeps.{
  Keeps, IsSafe, Keeps-bind, Keeps-return, in_stack-Keeps, slot-IsSafe, object-IsSafe, keeps_rules,
}
use cpp_lox.Execute.Variables.{
  set_global, close_from, store_at, store_in, set_captured, capture, run_define_global,
  run_store_global, run_load_global, run_load_local, run_store_local, run_load_upvalue,
  run_store_upvalue, run_close_upvalue, capture_one, capture_from, in_place, run_closure,
  leave_frame, run_return,
}

module _ (room : ℕ) where
  global-IsSafe :
      (index : ℕ) (g : GlobalValue) (s : Machine)
      → IsSafe room s
      → IsSafe room (set_global index g s)
  unfolding set_global
  global-IsSafe index g s h = h

  close_from-Keeps : (last : ℕ) → Keeps room (close_from last)
  unfolding close_from
  close_from-Keeps last = record { at = λ s h. h }

  capture-Keeps : (slot fresh : ℕ) → Keeps room (capture slot fresh)
  unfolding capture
  capture-Keeps slot fresh = record { at = λ s h. h }

  in_place-Keeps : (l : Location) → Keeps room (in_place l)
  unfolding in_place
  in_place-Keeps (slot_at i) = in_stack-Keeps room i
  in_place-Keeps own = Keeps-return room tt

  captured-IsSafe : (a i u : ℕ) (s : Machine) → IsSafe room s → IsSafe room (set_captured a i u s)
  unfolding set_captured
  captured-IsSafe a i u s h = object-IsSafe room a _ s h

  store_in-IsSafe :
      (l : Location) (u : ℕ) (v : Value) (s : Machine)
      → IsSafe room s
      → IsSafe room (store_in l u v s)
  unfolding store_in
  store_in-IsSafe (slot_at i) u v s h = slot-IsSafe room i v s h
  store_in-IsSafe own u v s h = h

  store_at-IsSafe : (u : ℕ) (v : Value) (s : Machine) → IsSafe room s → IsSafe room (store_at u v s)
  unfolding store_at
  store_at-IsSafe u v s h = store_in-IsSafe (s.upvalues u).location u v s h

  module _ (env : Env) where
    module _ ⦃key : Key ℕ⦄ ⦃index : Default ℕ⦄ where
      pub run_define_global-Keeps : Keeps room (run_define_global env)
      unfolding run_define_global
      run_define_global-Keeps = search (keeps_rules, global-IsSafe) depth 14

      pub run_store_global-Keeps : Keeps room (run_store_global env)
      unfolding run_store_global
      run_store_global-Keeps = search (keeps_rules, global-IsSafe) depth 14

      pub run_load_global-Keeps : Keeps room (run_load_global env)
      unfolding run_load_global
      run_load_global-Keeps = search keeps_rules depth 14

    pub run_load_local-Keeps : Keeps room (run_load_local env)
    unfolding run_load_local
    run_load_local-Keeps = search keeps_rules depth 14

    pub run_store_local-Keeps : Keeps room (run_store_local env)
    unfolding run_store_local
    run_store_local-Keeps = search keeps_rules depth 14

    pub run_load_upvalue-Keeps : Keeps room (run_load_upvalue env)
    unfolding run_load_upvalue
    run_load_upvalue-Keeps = search (keeps_rules, in_place-Keeps) depth 14

    pub run_store_upvalue-Keeps : Keeps room (run_store_upvalue env)
    unfolding run_store_upvalue
    run_store_upvalue-Keeps = search (keeps_rules, in_place-Keeps, store_at-IsSafe) depth 14

    pub run_close_upvalue-Keeps : Keeps room (run_close_upvalue env)
    unfolding run_close_upvalue
    run_close_upvalue-Keeps = search (keeps_rules, close_from-Keeps) depth 14

    capture_one-Keeps : (made fresh i : ℕ) → Keeps room (capture_one env made fresh i)
    unfolding capture_one
    capture_one-Keeps made fresh i = search (keeps_rules, capture-Keeps, captured-IsSafe) depth 14

    capture_from-Keeps :
        (fresh : ℕ → ℕ) (made rounds i : ℕ) → Keeps room (capture_from env fresh made rounds i)
    unfolding capture_from
    capture_from-Keeps fresh made zero i = search keeps_rules
    capture_from-Keeps fresh made (suc rounds) i =
        Keeps-bind room _ _ (capture_one-Keeps made (fresh i) i)
          λ done. capture_from-Keeps fresh made rounds (suc i)

    pub run_closure-Keeps : (fresh : Fresh) → Keeps room (run_closure env fresh)
    unfolding run_closure
    run_closure-Keeps fresh = search (keeps_rules, capture_from-Keeps) depth 14

  -- the frame that is left starts within the stack
  left-IsSafe :
      (s : Machine)
      → IsSafe room s
      → IsSafe room (record s {
        vm = record (s.vm) {
          frame_count = s.vm.frame_count - 1;
          stack_top = (current_frame s).slots;
        };
      })
  unfolding current_frame
  left-IsSafe s h = record {
    stack_length = h.stack_length;
    top = h.slots (s.vm.frame_count - 1);
    frame_array = h.frame_array;
    few = omega (arith, h.few);
    slots = h.slots;
  }

  last-IsSafe :
      (s : Machine)
      → IsSafe room s
      → IsSafe room (record s { vm = record (s.vm) { frame_count = s.vm.frame_count - 1 } })
  last-IsSafe s h = record {
    stack_length = h.stack_length;
    top = h.top;
    frame_array = h.frame_array;
    few = omega (arith, h.few);
    slots = h.slots;
  }

  leave_frame-Keeps : (result : Value) → Keeps room (leave_frame result)
  unfolding leave_frame
  leave_frame-Keeps result = search (keeps_rules, left-IsSafe, last-IsSafe) depth 14

  pub run_return-Keeps : Keeps room run_return
  unfolding run_return
  run_return-Keeps = search (keeps_rules, close_from-Keeps, leave_frame-Keeps) depth 14
