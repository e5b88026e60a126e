-- ===== src/Gc.antt =====
-- src/common/gc.cpp, the marking half of the collector; `Sweeping` and `Cycle` have the rest.
-- `memory` is what the addresses hold; the collector writes only the field `is_marked`, which is kept
-- apart from it, and the list of the allocator's objects. The log lines are left out.
pub mod Sweeping
pub mod Cycle
pub mod Pointers
pub mod Marks
pub mod Trace
pub mod RootSet
pub mod SwapErase
pub mod Sweep
pub mod Strings
pub mod Invariant
pub mod Collect
pub mod Create
mod Tests
use mathlib.Core.List.{foldl}
use cpp_lox.Prelude.{
  ℕ, zero, suc, ◌+◌, ◌-◌, ◌*◌, max, Bool, true, false, not, Option, none, some, List, [], ◌∷◌, ltb,
  ◌==◌, if◌then◌else◌, length, get_or, set, take, ◌>>=◌,
}
use cpp_lox.HashMap.Keys.{Key, Default}
use cpp_lox.HashMap.{HashMap, Slot, is_filled, at, erase}
use cpp_lox.Object.{
  Value, nil, boolean, number_real, number_int, object, Object, string, native_function, upvalue,
  function, class, instance_of, bound_method, closure, list, map_of,
}

abbrev pub Memory : Type 0
Memory = ℕ → Object

-- a write of one field of the object at `a`
abbrev pub update : (ℕ → Bool) → ℕ → Bool → ℕ → Bool
update f a v x = if x == a then v else f x

-- The last of `grey_objects` comes first.
pub record Marking : Type 0 where
  pub is_marked : ℕ → Bool
  pub grey_objects : List ℕ

unfoldable pub mark_object : Marking → ℕ → Marking
mark_object s a =
    if a == 0
    then s
    else if s.is_marked a
    then s
    else record { is_marked = update s.is_marked a true; grey_objects = a ∷ s.grey_objects }

unfoldable pub mark_value : Marking → Value → Marking
mark_value s (object a) = mark_object s a
mark_value s _ = s

-- the two loops over the slots of a table
unfoldable pub mark_table : Marking → HashMap ℕ Value → Marking
unfolding is_filled
mark_table s t =
    foldl
      (λ r slot. if is_filled slot.state then mark_value (mark_object r slot.key) slot.value else r)
      s t.slots

unfoldable pub mark_map : Marking → HashMap Value Value → Marking
unfolding is_filled
mark_map s t =
    foldl
      (λ r slot. if is_filled slot.state then mark_value (mark_value r slot.key) slot.value else r)
      s t.slots

unfoldable pub blacken_object : Marking → Object → Marking
blacken_object s string = s
blacken_object s native_function = s
blacken_object s (upvalue next closed) = mark_value s closed
blacken_object s (function constants name) = foldl mark_value (mark_object s name) constants
blacken_object s (class name init_method methods) = mark_table (mark_object s name) methods
blacken_object s (instance_of class_ fields) = mark_table (mark_object s class_) fields
blacken_object s (bound_method receiver method) = mark_object (mark_value s receiver) method
blacken_object s (closure code upvalues) = foldl mark_object (mark_object s code) upvalues
blacken_object s (list values) = foldl mark_value s values
blacken_object s (map_of table) = mark_map s table

-- The loop runs on fuel, one unit for each object that is blackened; `none` is when it is spent.
unfoldable pub trace_references : Memory → ℕ → Marking → Option Marking
trace_references memory zero s = elim s.grey_objects [ [] ↦ some s | _ ∷ _ ↦ none ]
trace_references memory (suc fuel) s = elim s.grey_objects [
  | [] ↦ some s
  | last ∷ rest ↦
      trace_references memory fuel (blacken_object (record s { grey_objects = rest }) (memory last))
]

-- `Context`, as far as the collector reads it
pub record Globals : Type 0 where
  pub global_names : HashMap ℕ ℕ
  pub values : List Value

-- `VM`: the stack below `stack_top`, the closures of the frames, the open upvalues from the head of
-- the list on along `next`
pub record VmRoots : Type 0 where
  pub evalstack : List Value
  pub frames : List ℕ
  pub open_upvalues : List ℕ
  pub context : Globals
  pub constant_string_init : ℕ

-- `compilers` is the function of `Compiler::current` and those of the enclosing compilers
pub record Roots : Type 0 where
  pub temp_stash : List Value
  pub compilers : List ℕ
  pub compiler_context : Globals
  pub vm : Option VmRoots
  pub never_delete_objects : List ℕ

unfoldable pub mark_global_variables : Marking → Globals → Marking
unfolding is_filled
mark_global_variables s context =
    foldl mark_value
      (foldl (λ r slot. if is_filled slot.state then mark_object r slot.key else r) s
        context.global_names.slots)
      context.values

unfoldable pub mark_compiler_roots : Marking → List ℕ → Globals → Bool → Marking
mark_compiler_roots s [] context is_vm_live = s
mark_compiler_roots s (compiler ∷ enclosing) context is_vm_live =
    foldl mark_object (if is_vm_live then s else mark_global_variables s context)
      (compiler ∷ enclosing)

unfoldable pub mark_vm_roots : Marking → VmRoots → Marking
mark_vm_roots s vm =
    let on_stack = foldl mark_value s vm.evalstack in
    let framed = foldl mark_object on_stack vm.frames in
    let opened = foldl mark_object framed vm.open_upvalues in
    mark_object (mark_global_variables opened vm.context) vm.constant_string_init

abbrev pub is_live : Option VmRoots → Bool
is_live none = false
is_live (some vm) = true

abbrev pub mark_live : Marking → Option VmRoots → Marking
mark_live s none = s
mark_live s (some vm) = mark_vm_roots s vm

unfoldable pub mark_roots : Marking → Roots → Marking
mark_roots s roots =
    let stashed = foldl mark_value s roots.temp_stash in
    let compiled =
      mark_compiler_roots stashed roots.compilers roots.compiler_context (is_live roots.vm) in
    foldl mark_object (mark_live compiled roots.vm) roots.never_delete_objects
