-- ===== src/Execute/Runs.antt =====
-- The steps of a run, one equation for each, where nothing goes wrong.
use cpp_lox.Prelude.{
  ℕ, zero, suc, ◌-◌, ◌<◌, ◌≤◌, ◌≡◌, refl, ap, ◌∙◌, Bool, true, false, length, get_or, set, arith,
  ◌==◌, if◌then◌else◌,
}
use cpp_lox.Object.{Value, nil}
use cpp_lox.Vm.{push, pop}
use cpp_lox.Execute.State.{
  Machine, Run, ok, with_vm, with_value, ◌>>=◌, return, push_value, pop_value,
}
use cpp_lox.Execute.Indices.{pop_times, replace_top}

pub if_true {ℓ} : {A : Type ℓ} (b : Bool) (x y : A) → b ≡ true → (if b then x else y) ≡ x
if_true true x y h = refl
if_true false x y h = cc

pub if_false {ℓ} : {A : Type ℓ} (b : Bool) (x y : A) → b ≡ false → (if b then x else y) ≡ y
if_false true x y h = cc
if_false false x y h = refl

pub bind_ok :
    {A B : Type 0} (m : Run A) (f : A → Run B) (s : Machine) (a : A) (s' : Machine)
    → m s ≡ ok a s'
    → (m >>= f) s ≡ f a s'
unfolding ◌>>=◌
bind_ok m f s a s' h = rw (h, ◌>>=◌)

-- the value on top
abbrev pub top_value : Machine → Value
top_value s = get_or s.vm.evalstack (s.vm.stack_top - 1) nil

pub pop_value-ok :
    (s : Machine)
    → 0 < s.vm.stack_top
    → pop_value s
      ≡ ok (top_value s) (record s { vm = record (s.vm) { stack_top = s.vm.stack_top - 1 } })
unfolding pop_value pop
pop_value-ok s low = ap (with_value s) (if_false (s.vm.stack_top == 0) _ _ (ground arith))

pub push_value-ok :
    (v : Value) (s : Machine)
    → s.vm.stack_top < length s.vm.evalstack
    → push_value v s
      ≡ ok tt (record s {
        vm = record (s.vm) {
          evalstack = set s.vm.evalstack s.vm.stack_top v;
          stack_top = suc s.vm.stack_top;
        };
      })
unfolding push_value push
push_value-ok v s room =
    ap (with_vm s) (if_false (s.vm.stack_top == length s.vm.evalstack) _ _ (ground arith))

pop_times-ok :
    (n : ℕ) (s : Machine)
    → n ≤ s.vm.stack_top
    → pop_times n s ≡ ok tt (record s { vm = record (s.vm) { stack_top = s.vm.stack_top - n } })
unfolding pop_times return
pop_times-ok zero s low =
    ap (λ t. ok tt (record s { vm = record (s.vm) { stack_top = t } })) (omega arith)
pop_times-ok (suc n) s low =
    bind_ok pop_value _ s _ _ (pop_value-ok s (omega arith))
    ∙ pop_times-ok n _ (omega arith)
    ∙ ap (λ t. ok tt (record s { vm = record (s.vm) { stack_top = t } })) (omega arith)

-- the machine whose `n` values on top are replaced by `v`
abbrev pub replaced : ℕ → Value → Machine → Machine
replaced n v s = record s {
  vm = record (s.vm) {
    evalstack = set s.vm.evalstack (s.vm.stack_top - n) v;
    stack_top = suc (s.vm.stack_top - n);
  };
}

pub replace_top-ok :
    (n : ℕ) (v : Value) (s : Machine)
    → n ≤ s.vm.stack_top
    → s.vm.stack_top - n < length s.vm.evalstack
    → replace_top n v s ≡ ok tt (replaced n v s)
unfolding replace_top
replace_top-ok n v s low room =
    bind_ok (pop_times n) _ s tt _ (pop_times-ok n s low) ∙ push_value-ok v _ room
