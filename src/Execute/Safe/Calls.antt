-- ===== src/Execute/Safe/Calls.antt =====
-- The calls of Vm keep the bounds of the stack and of the frames, whatever is called.
use cpp_lox.Prelude.{
  ℕ, ◌+◌, ◌-◌, ◌≡◌, Bool, false, not, ◌&&◌, Option, none, some, length, length-set, if-cases, ◌==◌,
  arith,
}
use cpp_lox.HashMap.Keys.{Key, Default}
use cpp_lox.HashMap.{new}
use cpp_lox.Object.{
  Value, object, Object, native_function, function, class, instance_of, bound_method, closure,
}
use cpp_lox.Vm.{
  Vm, Memory, Outcome, returns, throws, loops, max_frame_size, any_arity, function_of, frame_of,
  enter, call, call_class, call_native, call_object, call_value, push, return_native, set_callee,
  allocate, as_object, is_nil, invoke, invoke_object, invoke_receiver, invoke_peeked, returned,
  invoke_from_class, call_field, call_method,
}
use cpp_lox.Execute.Keeps.{Fits, Fits-stack, set-slots}

-- What a call leaves fits.
abbrev pub CallFits : ℕ → Outcome (Bool × Vm) → Type 0
CallFits room (returns r) = Fits room r.1
CallFits room throws = Unit
CallFits room loops = Unit

module _ (room : ℕ) where
  Fits-callee : (n : ℕ) (v : Value) (s : Vm) → Fits room s → Fits room (set_callee n v s)
  unfolding set_callee
  Fits-callee n v s h = Fits-stack room s _ _ h (length-set s.evalstack _ v) h.top

  Fits-memory : (memory : Memory) (s : Vm) → Fits room s → Fits room (record s { memory = memory })
  Fits-memory memory s h = record {
    stack_length = h.stack_length;
    top = h.top;
    frame_array = h.frame_array;
    few = h.few;
    slots = h.slots;
  }

  Fits-enter :
      (callee n : ℕ) (s : Vm)
      → Fits room s
      → (s.frame_count == max_frame_size) ≡ false
      → Fits room (enter callee n s)
  Fits-enter callee n s h free = record {
    stack_length = h.stack_length;
    top = h.top;
    frame_array =
        omega (arith, h.frame_array, length-set s.frames s.frame_count (frame_of callee n s));
    few = ground (arith, h.few);
    slots = λ j.
        set-slots room s.frames s.frame_count (frame_of callee n s) j h.slots
          (omega (arith, h.top));
  }

  module _ (arity : ℕ → ℕ) where
    call-Fits : (callee n : ℕ) (s : Vm) → Fits room s → Fits room (call arity callee n s).1
    unfolding call
    call-Fits callee n s h =
        if-cases (λ (r : Bool × Vm). Fits room r.1)
          (not (n == arity (function_of (s.memory callee)))) (λ _. h)
          λ _.
            if-cases (λ (r : Bool × Vm). Fits room r.1) (s.frame_count == max_frame_size) (λ _. h)
              λ free. Fits-enter callee n s h free

    call_class-Fits :
        (fresh class_ n : ℕ) (init_method : Value) (s : Vm)
        → Fits room s
        → Fits room (call_class arity fresh class_ init_method n s).1
    unfolding call_class
    call_class-Fits fresh class_ n init_method s h =
        let made =
          Fits-callee n (object fresh) (allocate fresh (instance_of class_ new) s)
            (Fits-memory _ s h) in
        if-cases (λ (r : Bool × Vm). Fits room r.1) (not (is_nil init_method))
          (λ _. call-Fits (as_object init_method) n _ made) (λ _. made)

    module _ (native : ℕ → Vm → ℕ → ℕ → Value × Bool × Memory) where
      call_native-Fits :
          (callee n : ℕ) (s : Vm)
          → Fits room s
          → CallFits room (call_native arity native callee n s)
      unfolding call_native return_native push
      call_native-Fits callee n s h =
          let (result, ok, memory) = native callee s n (s.stack_top - n - 1) in
          if-cases (CallFits room) (not (arity callee == any_arity) && not (n == arity callee))
            (λ _. h)
            λ _.
              if-cases (CallFits room) (not ok) (λ _. Fits-memory memory s h)
                λ _.
                  if-cases (λ o. CallFits room (returned o))
                    (s.stack_top - (n + 1) == length s.evalstack) (λ full. tt)
                    λ free.
                      Fits-stack room (record s { memory = memory }) _ _ (Fits-memory memory s h)
                        (length-set s.evalstack _ result) (ground (arith, h.stack_length, h.top))

      call_object-Fits :
          (fresh callee : ℕ) (o : Object) (n : ℕ) (s : Vm)
          → Fits room s
          → CallFits room (call_object arity native fresh callee o n s)
      unfolding call_object
      call_object-Fits fresh callee (function constants name) n s h = tt
      call_object-Fits fresh callee (closure f upvalues) n s h = call-Fits callee n s h
      call_object-Fits fresh callee (bound_method receiver method) n s h =
          call-Fits method n _ (Fits-callee n receiver s h)
      call_object-Fits fresh callee (class name init_method methods) n s h =
          call_class-Fits fresh callee n init_method s h
      call_object-Fits fresh callee native_function n s h = call_native-Fits callee n s h
      call_object-Fits fresh callee _ n s h = h

      pub call_value-Fits :
          (fresh : ℕ) (callee : Value) (n : ℕ) (s : Vm)
          → Fits room s
          → CallFits room (call_value arity native fresh callee n s)
      unfolding call_value
      call_value-Fits fresh (object a) n s h = call_object-Fits fresh a (s.memory a) n s h
      call_value-Fits fresh _ n s h = h

      module _ ⦃key : Key ℕ⦄ ⦃value : Default Value⦄ where
        method-Fits :
            (n : ℕ) (s : Vm) (found : Option (Option Value))
            → Fits room s
            → CallFits room (call_method arity native n s found)
        method-Fits n s none h = tt
        method-Fits n s (some none) h = h
        method-Fits n s (some (some m)) h = call-Fits (as_object m) n s h

        pub invoke_from_class-Fits :
            (class_ name n : ℕ) (s : Vm)
            → Fits room s
            → CallFits room (invoke_from_class arity native class_ name n s)
        unfolding invoke_from_class
        invoke_from_class-Fits class_ name n s h = method-Fits n s _ h

        field-Fits :
            (fresh class_ name n : ℕ) (s : Vm) (found : Option (Option Value))
            → Fits room s
            → CallFits room (call_field arity native fresh class_ name n s found)
        field-Fits fresh class_ name n s none h = tt
        field-Fits fresh class_ name n s (some none) h = invoke_from_class-Fits class_ name n s h
        field-Fits fresh class_ name n s (some (some v)) h =
            call_value-Fits fresh v n _ (Fits-callee n v s h)

        object-Fits :
            (fresh name : ℕ) (o : Object) (n : ℕ) (s : Vm)
            → Fits room s
            → CallFits room (invoke_object arity native fresh name o n s)
        unfolding invoke_object
        object-Fits fresh name (instance_of class_ fields) n s h =
            field-Fits fresh class_ name n s _ h
        object-Fits fresh name _ n s h = h

        receiver-Fits :
            (fresh name : ℕ) (receiver : Value) (n : ℕ) (s : Vm)
            → Fits room s
            → CallFits room (invoke_receiver arity native fresh name receiver n s)
        receiver-Fits fresh name (object a) n s h = object-Fits fresh name (s.memory a) n s h
        receiver-Fits fresh name _ n s h = h

        peeked-Fits :
            (fresh name n : ℕ) (s : Vm) (receiver : Outcome Value)
            → Fits room s
            → CallFits room (invoke_peeked arity native fresh name n s receiver)
        peeked-Fits fresh name n s (returns receiver) h = receiver-Fits fresh name receiver n s h
        peeked-Fits fresh name n s throws h = tt
        peeked-Fits fresh name n s loops h = tt

        pub invoke-Fits :
            (fresh name n : ℕ) (s : Vm)
            → Fits room s
            → CallFits room (invoke arity native fresh name n s)
        unfolding invoke
        invoke-Fits fresh name n s h = peeked-Fits fresh name n s _ h
