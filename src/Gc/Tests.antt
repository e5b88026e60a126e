-- ===== src/Gc/Tests.antt =====
-- A small heap: a list on the stack that holds an interned string, two lists that hold each other
-- and nothing holds, an interned string that nothing holds, two open upvalues, and a closed one whose
-- `next` is the address of an object that is gone.
use cpp_lox.Prelude.{
  ℕ, zero, suc, ◌<◌, ◌≤◌, ◌≡◌, ◌≢◌, refl, inl, inr, Bool, false, not, some, [], ◌∷◌, ◌==◌, arith,
  Bool-cases, Returns, length,
}
use cpp_lox.HashMap.{new, HashMap, insert}
use cpp_lox.HashMap.View.{view}
use cpp_lox.HashMap.NumberKey.{number_key, number_value}
use cpp_lox.HashMap.Tuning.{new-IsValid}
use cpp_lox.HashMap.Fill.{Wrote}
use cpp_lox.HashMap.Methods.{insert-Wrote}
use cpp_lox.HashMap.Found.{is_some}
use cpp_lox.Object.{nil, object, Object, string, list, upvalue}
use cpp_lox.Gc.{Globals, Memory, Roots, trace_references, mark_roots}
use cpp_lox.Gc.Pointers.{count, pointers, values_pointers, value_pointers, HasInit}
use cpp_lox.Gc.RootSet.{
  root_pointers, compiler_pointers, vm_pointers, globals_pointers, key_pointers,
}
use cpp_lox.Gc.SwapErase.{weigh}
use cpp_lox.Gc.Sweeping.{sweep, remove_unused_strings}
use cpp_lox.Gc.Sweep.{Sweeps, sweep-Sweeps}
use cpp_lox.Gc.Strings.{Kept, remove_unused_strings-Kept}
use cpp_lox.Gc.Cycle.{Allocator, Opts, collect, create_object}
use cpp_lox.Gc.Invariant.{IsWell, Collected, Traced, byte_size, trace-Traced}
use cpp_lox.Gc.Collect.{collect-Collected}
use cpp_lox.Gc.Create.{Counted, create_object-Counted}

abbrev memory : Memory
memory (suc zero) = list (object 2 ∷ [])
memory (suc (suc (suc zero))) = list (object 4 ∷ [])
memory (suc (suc (suc (suc zero)))) = list (object 3 ∷ nil ∷ [])
memory (suc (suc (suc (suc (suc (suc zero)))))) = upvalue 7 nil
memory (suc (suc (suc (suc (suc (suc (suc zero))))))) = upvalue 0 nil
memory (suc (suc (suc (suc (suc (suc (suc (suc zero)))))))) = upvalue 9 (object 2)
memory _ = string

abbrev size_of : Object → ℕ
size_of string = 32
size_of _ = 40

abbrev no_globals : Globals
no_globals = record { global_names = new; values = [] }

abbrev roots : Roots
roots = record {
  temp_stash = object 1 ∷ object 8 ∷ nil ∷ [];
  compilers = [];
  compiler_context = no_globals;
  vm = some (record {
    evalstack = [];
    frames = [];
    open_upvalues = 6 ∷ 7 ∷ [];
    context = no_globals;
    constant_string_init = 0;
  });
  never_delete_objects = [];
}

abbrev no_pool : HashMap ℕ ℕ
no_pool = new

abbrev first_string :
    Returns
      (insert no_pool 8 5)
      λ r. (r.0 ≡ not (is_some (view no_pool.slots 8))) × Wrote no_pool 8 (some 5) r.1
first_string = insert-Wrote no_pool new-IsValid.0 8 refl 5

abbrev pool : HashMap ℕ ℕ
pool = first_string.0.1

abbrev allocator : Allocator ℕ
allocator = record {
  objs = 1 ∷ 2 ∷ 3 ∷ 4 ∷ 5 ∷ 6 ∷ 7 ∷ 8 ∷ [];
  is_marked = λ _. false;
  interned_strings = pool;
  bytes_allocated = 320;
  bytes_freed = 16;
  objects_created = 6;
  objects_freed = 1;
  next_gc = 190;
  gc_cycles = 0;
  gc_disabled = false;
}

closed :
    (x y : ℕ)
    → 0 < count x allocator.objs
    → y ≢ 0
    → 0 < count y (pointers (memory x))
    → 0 < count y allocator.objs
unfolding count pointers values_pointers value_pointers
closed zero y h n k = ground arith
closed (suc zero) y h n k = ground arith
closed (suc (suc zero)) y h n k = ground arith
closed (suc (suc (suc zero))) y h n k = ground arith
closed (suc (suc (suc (suc zero)))) y h n k = ground arith
closed (suc (suc (suc (suc (suc zero))))) y h n k = ground arith
closed (suc (suc (suc (suc (suc (suc zero)))))) y h n k = ground arith
closed (suc (suc (suc (suc (suc (suc (suc zero))))))) y h n k = ground arith
closed (suc (suc (suc (suc (suc (suc (suc (suc zero)))))))) y h n k = ground arith
closed (suc (suc (suc (suc (suc (suc (suc (suc (suc x))))))))) y h n k = ground arith

init : (x : ℕ) → HasInit (memory x)
unfolding HasInit
init zero = tt
init (suc zero) = tt
init (suc (suc zero)) = tt
init (suc (suc (suc zero))) = tt
init (suc (suc (suc (suc zero)))) = tt
init (suc (suc (suc (suc (suc zero))))) = tt
init (suc (suc (suc (suc (suc (suc zero)))))) = tt
init (suc (suc (suc (suc (suc (suc (suc zero))))))) = tt
init (suc (suc (suc (suc (suc (suc (suc (suc zero)))))))) = tt
init (suc (suc (suc (suc (suc (suc (suc (suc (suc x))))))))) = tt

pooled : (k x : ℕ) → view pool.slots k ≡ some x → (x ≢ 0) × (0 < count x allocator.objs)
unfolding count view new
pooled k x h = elim (Bool-cases (8 == k)) [
  | inl e ↦ let same : x ≡ 5 = cc (rw (first_string.2.1.reads k, e) at h) in ground (arith, same)
  | inr e ↦ absurd (cc (rw (first_string.2.1.reads k, e) at h))
]

allocator-IsWell : IsWell memory size_of roots 0 allocator
unfolding count root_pointers compiler_pointers vm_pointers globals_pointers key_pointers new
    values_pointers value_pointers weigh byte_size
allocator-IsWell = record {
  white = λ x. refl;
  once = λ x n. ground arith;
  closed = closed;
  rooted = λ y n h. ground arith;
  linked = (refl, (refl, tt));
  init = λ x h. init x;
  pool = first_string.2.1.valid;
  pooled = pooled;
  accounted = refl;
  fits = omega arith;
}

abbrev opts : Opts
opts = record { gc_heap_grow_factor = 2; gc_next_collection = 100 }

collect-Collected_example :
    Returns
      (collect memory size_of opts roots allocator)
      (Collected memory size_of roots 0 allocator)
collect-Collected_example = collect-Collected memory size_of roots 0 allocator allocator-IsWell opts

create_object-Counted_example :
    Returns
      (create_object memory size_of opts roots 40 allocator)
      (Counted memory size_of roots 40 allocator)
create_object-Counted_example =
    create_object-Counted memory size_of roots opts 40 allocator allocator-IsWell (omega arith)

trace-Traced_example :
    Returns
      (trace_references memory
        (length allocator.objs)
        (mark_roots (record { is_marked = allocator.is_marked; grey_objects = [] }) roots))
      (Traced memory roots)
trace-Traced_example = trace-Traced memory size_of roots 0 allocator allocator-IsWell

abbrev marks : ℕ → Bool
marks a = a == 1

once : (a : ℕ) → a ≢ 0 → count a (1 ∷ 2 ∷ 3 ∷ []) ≤ 1
unfolding count
once a n = ground arith

sweep-Sweeps_example : Returns (sweep (1 ∷ 2 ∷ 3 ∷ []) marks) (Sweeps (1 ∷ 2 ∷ 3 ∷ []) marks)
sweep-Sweeps_example = sweep-Sweeps (1 ∷ 2 ∷ 3 ∷ []) marks once

remove_unused_strings-Kept_example : Returns (remove_unused_strings marks pool) (Kept marks pool)
remove_unused_strings-Kept_example = remove_unused_strings-Kept marks pool first_string.2.1.valid
