-- ===== src/Vm/Called.antt =====
-- src/vm/vm.cpp: what a call does to the stack and to the frames, on every branch.
use cpp_lox.Prelude.{
  ℕ, suc, List, ◌+◌, ◌-◌, ◌<◌, ◌≤◌, Bool, true, false, not, ◌&&◌, ◌≡◌, ◌≢◌, refl, ◌⊎◌, inl, inr,
  ◌==◌, length, get_or, set, length-set, get_or-set, Bool-cases, if-cases, arith, ap, subst, sym,
  ◌∙◌, if◌then◌else◌,
}
use cpp_lox.Object.{
  Value, nil, boolean, number_real, number_int, object, uninitialized, Object, string,
  native_function, upvalue, function, class, instance_of, bound_method, closure, list, map_of,
}
use cpp_lox.HashMap.{new}
use cpp_lox.Vm.{
  Vm, new_frame, Memory, Outcome, returns, throws, loops, max_frame_size, any_arity, function_of,
  frame_of, enter, call, call_class, call_native, call_object, call_value, push, return_native,
  set_callee, allocate, as_object, is_nil,
}

-- No other slot is written.
unfoldable pub OthersKept : ℕ → Vm → Vm → Type 0
OthersKept slot s after =
    (length after.evalstack ≡ length s.evalstack)
    × ((i : ℕ) → (i == slot) ≡ false → get_or after.evalstack i nil ≡ get_or s.evalstack i nil)

-- Nothing is entered and the stack has its height.
unfoldable pub Refused : ℕ → Vm → Vm → Type 0
Refused n s after =
    OthersKept (s.stack_top - n - 1) s after
    × (after.stack_top ≡ s.stack_top)
    × (after.frame_count ≡ s.frame_count)
    × (after.frames ≡ s.frames)

module _ (arity : ℕ → ℕ) where
  -- A frame is on top for a closure that takes as many arguments as were passed.
  unfoldable pub Entered : ℕ → Vm → Vm → Type 0
  Entered n s after =
      OthersKept (s.stack_top - n - 1) s after
      × (after.stack_top ≡ s.stack_top)
      × (after.frame_count ≡ suc s.frame_count)
      × (after.frame_count ≤ max_frame_size)
      × ((callee : ℕ) × (arity (function_of (after.memory callee)) ≡ n)
          × (get_or after.frames s.frame_count new_frame ≡ frame_of callee n s))

  -- The result stands where the callee stood.
  unfoldable pub Finished : ℕ → Vm → Vm → Type 0
  Finished n s after =
      OthersKept (s.stack_top - n - 1) s after
      × (after.stack_top + n ≡ s.stack_top)
      × (after.frame_count ≡ s.frame_count)
      × (after.frames ≡ s.frames)

  unfoldable pub Returned : ℕ → Vm → Bool × Vm → Type 0
  Returned n s (false, after) = Refused n s after
  Returned n s (true, after) = Entered n s after ⊎ Finished n s after

  unfoldable pub Called : ℕ → Vm → Outcome (Bool × Vm) → Type 0
  Called n s (returns r) = Returned n s r
  Called n s throws = ⊥
  Called n s loops = ⊥

-- The callee and its arguments are on the stack, and there is room for each frame.
unfoldable pub HasCallee : ℕ → Vm → Type 0
HasCallee n s =
    (n < s.stack_top)
    × (s.stack_top ≤ length s.evalstack)
    × (s.frame_count ≤ max_frame_size)
    × (max_frame_size ≤ length s.frames)

same_others : (slot : ℕ) (s : Vm) → OthersKept slot s s
unfolding OthersKept
same_others slot s = (refl, λ i h. refl)

set_others :
    (slot : ℕ) (s : Vm) (v : Value) (i : ℕ)
    → slot < length s.evalstack
    → (i == slot) ≡ false
    → get_or (set s.evalstack slot v) i nil ≡ get_or s.evalstack i nil
set_others slot s v i room h = ground (arith, get_or-set s.evalstack slot i v nil room)

get_or-set_same :
    {A : Type 0} (xs : List A) (i : ℕ) (v d : A) → i < length xs → get_or (set xs i v) i d ≡ v
get_or-set_same xs i v d room = ground (arith, get_or-set xs i i v d room)

not_full : (t room : ℕ) → t < room → (t == room) ≡ false
not_full t room h = ground arith

add_zero : (n t : ℕ) → (n == 0) ≡ true → t + n ≡ t
add_zero n t h = ground arith

-- the call's two ways to name the slot of the callee
same_slot : (t n i : ℕ) → (i == t - n - 1) ≡ false → (i == t - (n + 1)) ≡ false
same_slot t n i h = ground arith

frame_entered :
    (callee n : ℕ) (start s : Vm)
    → s.stack_top ≡ start.stack_top
    → s.frame_count ≡ start.frame_count
    → s.frame_count < length s.frames
    → get_or (enter callee n s).frames start.frame_count new_frame ≡ frame_of callee n start
frame_entered callee n start s top count room =
    subst (λ c. get_or (enter callee n s).frames c new_frame ≡ frame_of callee n start) count
      (get_or-set_same s.frames s.frame_count (frame_of callee n s) new_frame room
        ∙ ap (λ t. record { closure = callee; ip = 0; slots = t - n - 1 }) top)

module _ (arity : ℕ → ℕ) (native : ℕ → Vm → ℕ → ℕ → Value × Bool × Memory) where
  -- `call`, on a machine `s` whose stack a caller has written at the callee's slot
  call-Returned :
      (callee n : ℕ) (start s : Vm)
      → HasCallee n start
      → OthersKept (start.stack_top - n - 1) start s
      → s.stack_top ≡ start.stack_top
      → s.frame_count ≡ start.frame_count
      → s.frames ≡ start.frames
      → Returned arity n start (call arity callee n s)
  unfolding call Returned Refused Entered HasCallee OthersKept
  call-Returned callee n start s (low, room, few, frames) others top count same =
      if-cases (Returned arity n start) (not (n == arity (function_of (s.memory callee))))
        (λ other. (others, top, count, same))
        (λ wanted.
          if-cases (Returned arity n start) (s.frame_count == max_frame_size)
            (λ full. (others, top, count, same))
            (λ free. inl (
              others,
              top,
              ap suc count,
              ground arith,
              (
                callee,
                ground arith,
                frame_entered callee n start s top count
                    (subst (λ fs. s.frame_count < length fs) (sym same) (ground arith)),
              ),
            )))

  callee_written :
      (n : ℕ) (start : Vm) (v : Value)
      → HasCallee n start
      → OthersKept (start.stack_top - n - 1) start (set_callee n v start)
  unfolding OthersKept HasCallee set_callee
  callee_written n start v (low, room, few, frames) = (
    length-set start.evalstack (start.stack_top - n - 1) v,
    λ i h. set_others (start.stack_top - n - 1) start v i (omega arith) h,
  )

  call_class-Returned :
      (fresh class_ n : ℕ) (init_method : Value) (s : Vm)
      → HasCallee n s
      → Returned arity n s (call_class arity fresh class_ init_method n s)
  unfolding call_class set_callee Returned Refused Finished HasCallee OthersKept
  call_class-Returned fresh class_ n init_method s h =
      let made = allocate fresh (instance_of class_ new) s in
      if-cases (Returned arity n s) (not (is_nil init_method))
        (λ some_method.
          call-Returned (as_object init_method) n s (set_callee n (object fresh) made) h
            (callee_written n made (object fresh) h) refl refl refl)
        (λ no_method. elim (Bool-cases (n == 0)) [
          | inl none_passed ↦
              subst (λ b. Returned arity n s (b, set_callee n (object fresh) made))
                (sym none_passed)
                (inr (
                  callee_written n made (object fresh) h,
                  add_zero n s.stack_top none_passed,
                  refl,
                  refl,
                ))
          | inr passed ↦
              subst (λ b. Returned arity n s (b, set_callee n (object fresh) made)) (sym passed)
                (callee_written n made (object fresh) h, refl, refl, refl)
        ])

  call_native-Called :
      (callee n : ℕ) (s : Vm)
      → HasCallee n s
      → Called arity n s (call_native arity native callee n s)
  unfolding call_native Called Returned Refused Finished HasCallee OthersKept return_native push
  call_native-Called callee n s (low, room, few, frames) =
      let (result, ok, memory) = native callee s n (s.stack_top - n - 1) in
      if-cases (Called arity n s) (not (arity callee == any_arity) && not (n == arity callee))
        (λ wrong. (same_others (s.stack_top - n - 1) s, refl, refl, refl))
        (λ right.
          if-cases (Called arity n s) (not ok)
            (λ failed. (same_others (s.stack_top - n - 1) s, refl, refl, refl))
            (λ succeeded.
              subst
                (λ b.
                  Called arity n s
                    (elim (if b
                        then throws
                        else returns (record s {
                          evalstack = set s.evalstack (s.stack_top - (n + 1)) result;
                          stack_top = suc (s.stack_top - (n + 1));
                          memory = memory;
                        }))
                      as (λ x. Outcome (Bool × Vm)) [
                        | returns pushed ↦ returns (true, pushed)
                        | throws ↦ throws
                        | loops ↦ loops
                      ]))
                (sym (not_full (s.stack_top - (n + 1)) (length s.evalstack) (omega arith)))
                (inr (
                  (
                    length-set s.evalstack (s.stack_top - (n + 1)) result,
                    λ i h.
                        set_others (s.stack_top - (n + 1)) s result i (omega arith)
                          (same_slot s.stack_top n i h),
                  ),
                  omega arith,
                  refl,
                  refl,
                ))))

  same-Refused : (n : ℕ) (s : Vm) → Refused n s s
  unfolding Refused
  same-Refused n s = (same_others (s.stack_top - n - 1) s, refl, refl, refl)

  call_object-Called :
      (fresh callee : ℕ) (o : Object) (n : ℕ) (s : Vm)
      → HasCallee n s
      → ((constants : List Value) (name : ℕ) → o ≢ function constants name)
      → Called arity n s (call_object arity native fresh callee o n s)
  unfolding call_object Called Returned set_callee
  call_object-Called fresh callee (function constants name) n s h no_function =
      absurd (no_function constants name refl)
  call_object-Called fresh callee (closure f upvalues) n s h no_function =
      call-Returned callee n s s h (same_others (s.stack_top - n - 1) s) refl refl refl
  call_object-Called fresh callee (bound_method receiver method) n s h no_function =
      call-Returned method n s (set_callee n receiver s) h (callee_written n s receiver h) refl refl
        refl
  call_object-Called fresh callee (class name init_method methods) n s h no_function =
      call_class-Returned fresh callee n init_method s h
  call_object-Called fresh callee native_function n s h no_function =
      call_native-Called callee n s h
  call_object-Called fresh callee string n s h no_function = same-Refused n s
  call_object-Called fresh callee (upvalue next v) n s h no_function = same-Refused n s
  call_object-Called fresh callee (instance_of class_ fields) n s h no_function = same-Refused n s
  call_object-Called fresh callee (list values) n s h no_function = same-Refused n s
  call_object-Called fresh callee (map_of table) n s h no_function = same-Refused n s

  -- With the callee and its `n` arguments on the stack, and room for the frames, a call of a value
  -- that is not a naked function returns. If it fails, the frames and the height of the stack are
  -- as before. If it succeeds, either the new frame is on top, at most the 256th, for a closure
  -- that takes `n` arguments and with its slots at the callee; or the frames are as before and the
  -- arguments are off the stack. No slot but the callee's is written.
  pub call_value-Called :
      (fresh : ℕ) (callee : Value) (n : ℕ) (s : Vm)
      → HasCallee n s
      → ((a : ℕ) (constants : List Value) (name : ℕ)
          → callee ≡ object a
          → s.memory a ≢ function constants name)
      → Called arity n s (call_value arity native fresh callee n s)
  unfolding call_value Called Returned
  call_value-Called fresh (object a) n s h no_function =
      call_object-Called fresh a (s.memory a) n s h (λ c name. no_function a c name refl)
  call_value-Called fresh nil n s h no_function = same-Refused n s
  call_value-Called fresh uninitialized n s h no_function = same-Refused n s
  call_value-Called fresh (boolean b) n s h no_function = same-Refused n s
  call_value-Called fresh (number_real x) n s h no_function = same-Refused n s
  call_value-Called fresh (number_int x) n s h no_function = same-Refused n s
