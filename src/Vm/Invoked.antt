-- ===== src/Vm/Invoked.antt =====
-- src/vm/vm.cpp: `invoke` against the two instructions it stands for, the property and the call.
use cpp_lox.Prelude.{
  ℕ, suc, zero, ◌+◌, ◌-◌, Bool, true, false, ◌≡◌, refl, List, [], ◌∷◌, get_or, set, none, some, ap,
  sym, ◌∙◌, ltb, if◌then◌else◌, subst,
}
use cpp_lox.HashMap.Keys.{Key, Default}
use cpp_lox.HashMap.{get}
use cpp_lox.Object.{Value, nil, object, Object, instance_of, bound_method, StringValueTable}
use cpp_lox.Vm.{
  Vm, Memory, Outcome, returns, throws, loops, call, call_object, call_value, peek, set_callee,
  methods_of, call_method, call_field, invoke_from_class, invoke_object, invoke_receiver, invoke,
}

set_same : {A : Type 0} (xs : List A) (i : ℕ) (d : A) → set xs i (get_or xs i d) ≡ xs
set_same [] i d = refl
set_same (x ∷ xs) zero d = refl
set_same (x ∷ xs) (suc i) d = ap (λ ys. x ∷ ys) (set_same xs i d)

returned_or : Outcome Value → Value → Value
returned_or (returns v) d = v
returned_or throws d = d
returned_or loops d = d

peeked : (b : Bool) (x v : Value) → (if b then throws else returns x) ≡ returns v → x ≡ v
unfolding returned_or
peeked true x v h = ap (λ o. returned_or o x) h
peeked false x v h = ap (λ o. returned_or o x) h

set_twice : {A : Type 0} (xs : List A) (i : ℕ) (v w : A) → set (set xs i v) i w ≡ set xs i w
set_twice [] i v w = refl
set_twice (x ∷ xs) zero v w = refl
set_twice (x ∷ xs) (suc i) v w = ap (λ ys. x ∷ ys) (set_twice xs i v w)

-- the receiver in the place of what stood in its place
receiver_back :
    (n : ℕ) (s : Vm) (v w : Value) → peek n s ≡ returns v → set_callee n v (set_callee n w s) ≡ s
unfolding peek set_callee
receiver_back n s v w h =
    ap (λ e. record s { evalstack = e })
      (set_twice s.evalstack (s.stack_top - n - 1) w v
        ∙ subst (λ u. set s.evalstack (s.stack_top - n - 1) u ≡ s.evalstack)
            (peeked (ltb s.stack_top (n + 1)) (get_or s.evalstack (s.stack_top - n - 1) nil) v h)
            (set_same s.evalstack (s.stack_top - n - 1) nil))

module _ (arity : ℕ → ℕ) (native : ℕ → Vm → ℕ → ℕ → Value × Bool × Memory) ⦃key : Key ℕ⦄
    ⦃value : Default Value⦄ where
  receiver_method :
      (fresh a class_ name n m : ℕ) (fields : StringValueTable) (o : Object) (s : Vm)
      → o ≡ instance_of class_ fields
      → get fields name ≡ some none
      → get (methods_of (s.memory class_)) name ≡ some (some (object m))
      → invoke_object arity native fresh name o n s ≡ returns (call arity m n s)
  unfolding invoke_object invoke_from_class
  receiver_method fresh a class_ name n m fields o s is_instance no_field method =
      ap (λ o. invoke_object arity native fresh name o n s) is_instance
      ∙ ap (call_field arity native fresh class_ name n s) no_field
      ∙ ap (call_method arity native n s) method

  bound_call :
      (fresh b m n : ℕ) (receiver w : Value) (o : Object) (s : Vm)
      → o ≡ bound_method receiver m
      → peek n s ≡ returns receiver
      → call_object arity native fresh b o n (set_callee n w s) ≡ returns (call arity m n s)
  unfolding call_object
  bound_call fresh b m n receiver w o s is_bound top =
      ap (λ o. call_object arity native fresh b o n (set_callee n w s)) is_bound
      ∙ ap (λ s. returns (call arity m n s)) (receiver_back n s receiver w top)

  -- On a stack with an instance under its arguments, where the instance has no field of the name and
  -- its class has a method of that name, `invoke` leaves what `call_value` leaves of the stack with
  -- the method bound to the instance in the instance's place, which is what a lookup of the property
  -- would have put there: the same answer, frames and stack, the instance back in its place.
  pub invoke-call_value :
      (fresh a b class_ name n m : ℕ) (fields : StringValueTable) (s : Vm)
      → peek n s ≡ returns (object a)
      → s.memory a ≡ instance_of class_ fields
      → get fields name ≡ some none
      → get (methods_of (s.memory class_)) name ≡ some (some (object m))
      → s.memory b ≡ bound_method (object a) m
      → invoke arity native fresh name n s
        ≡ call_value arity native fresh (object b) n (set_callee n (object b) s)
  unfolding invoke call_value set_callee
  invoke-call_value fresh a b class_ name n m fields s top is_instance no_field method is_bound =
      ap
        (λ r. elim r as (λ x. Outcome (Bool × Vm)) [
          | returns receiver ↦ invoke_receiver arity native fresh name receiver n s
          | throws ↦ throws
          | loops ↦ loops
        ])
        top
      ∙ receiver_method fresh a class_ name n m fields (s.memory a) s is_instance no_field method
      ∙ sym (bound_call fresh b m n (object a) (object b) (s.memory b) s is_bound top)
