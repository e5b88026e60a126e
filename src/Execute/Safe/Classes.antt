-- ===== src/Execute/Safe/Classes.antt =====
-- The instructions of Execute/Classes keep the bounds.
use cpp_lox.Prelude.{ℕ, if-cases, ltb, Bool, true, false}
use cpp_lox.HashMap.Keys.{Key, Default}
use cpp_lox.Object.{Value}
use cpp_lox.Vm.{Vm, Outcome}
use cpp_lox.Execute.State.{Env, Machine, Result, Run}
use cpp_lox.Execute.Keeps.{Keeps, keeps_rules}
use cpp_lox.Execute.Safe.Calls.{CallFits, call_value-Fits, invoke-Fits, invoke_from_class-Fits}
use cpp_lox.Execute.Keeps.{Leaves}
use cpp_lox.Execute.Classes.{
  receiver_in_stack, from_call, run_call, run_invoke, run_super_invoke, run_class, bind_method,
  load_property, run_load_property, pop_to_nil, run_load_property_safe, run_store_property,
  run_method, run_inherit, run_load_super,
}

module _ (room : ℕ) where
  from_call-Leaves :
      (o : Outcome (Bool × Vm)) (s : Machine) → CallFits room o → Leaves room (from_call o s)
  unfolding from_call
  from_call-Leaves (Outcome.returns (true, vm)) s h = h
  from_call-Leaves (Outcome.returns (false, vm)) s h = h
  from_call-Leaves Outcome.throws s h = tt
  from_call-Leaves Outcome.loops s h = tt

  from_call-Keeps : (o : Outcome (Bool × Vm)) → CallFits room o → Keeps room (from_call o)
  from_call-Keeps o h = record { at = λ s safe. from_call-Leaves o s h }

  receiver-Keeps : (arg_count : ℕ) → Keeps room (receiver_in_stack arg_count)
  unfolding receiver_in_stack
  receiver-Keeps arg_count = record {
    at = λ s h.
        if-cases (λ (r : Result (Unit {0})). Leaves room r) (ltb arg_count s.vm.stack_top)
          (λ inside. h) (λ outside. tt);
  }

  module _ (env : Env) ⦃key : Key ℕ⦄ ⦃value : Default Value⦄ where
    pub run_call-Keeps : (fresh : ℕ) → Keeps room (run_call env fresh)
    unfolding run_call
    run_call-Keeps fresh = search (keeps_rules, from_call-Keeps, call_value-Fits) depth 14

    pub run_invoke-Keeps : (fresh : ℕ) → Keeps room (run_invoke env fresh)
    unfolding run_invoke
    run_invoke-Keeps fresh = search (keeps_rules, from_call-Keeps, invoke-Fits) depth 14

    pub run_super_invoke-Keeps : Keeps room (run_super_invoke env)
    unfolding run_super_invoke
    run_super_invoke-Keeps =
        search (keeps_rules, receiver-Keeps, from_call-Keeps, invoke_from_class-Fits) depth 14

    pub run_class-Keeps : (fresh : ℕ) → Keeps room (run_class env fresh)
    unfolding run_class
    run_class-Keeps fresh = search keeps_rules depth 14

    bind_method-Keeps : (fresh : ℕ) (m : Value) → Keeps room (bind_method env fresh m)
    unfolding bind_method
    bind_method-Keeps fresh m = search keeps_rules depth 14

    load_property-Keeps :
        (fresh : ℕ) (receiver : Value) (property : ℕ) (missing : Run (Unit {0}))
        → Keeps room missing
        → Keeps room (load_property env fresh receiver property missing)
    unfolding load_property
    load_property-Keeps fresh receiver property missing h =
        search (keeps_rules, bind_method-Keeps) depth 14

    pub run_load_property-Keeps : (fresh : ℕ) → Keeps room (run_load_property env fresh)
    unfolding run_load_property
    run_load_property-Keeps fresh = search (keeps_rules, load_property-Keeps) depth 14

    pop_to_nil-Keeps : Keeps room (pop_to_nil env)
    unfolding pop_to_nil
    pop_to_nil-Keeps = search keeps_rules depth 14

    pub run_load_property_safe-Keeps : (fresh : ℕ) → Keeps room (run_load_property_safe env fresh)
    unfolding run_load_property_safe
    run_load_property_safe-Keeps fresh =
        search (keeps_rules, load_property-Keeps, pop_to_nil-Keeps) depth 14

    pub run_store_property-Keeps : Keeps room (run_store_property env)
    unfolding run_store_property
    run_store_property-Keeps = search keeps_rules depth 14

    pub run_method-Keeps : Keeps room (run_method env)
    unfolding run_method
    run_method-Keeps = search keeps_rules depth 14

    pub run_inherit-Keeps : Keeps room (run_inherit env)
    unfolding run_inherit
    run_inherit-Keeps = search keeps_rules depth 14

    pub run_load_super-Keeps : (fresh : ℕ) → Keeps room (run_load_super env fresh)
    unfolding run_load_super
    run_load_super-Keeps fresh = search (keeps_rules, bind_method-Keeps) depth 14
