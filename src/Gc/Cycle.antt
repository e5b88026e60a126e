-- ===== src/Gc/Cycle.antt =====
-- src/common/allocator.cpp and include/allocator.hpp: the counters of the allocator, and one
-- collection, `collect_garbage` of src/common/gc.cpp.
-- A `size_t` is a number below 2 ^ 64. `size_of` is `sizeof` of the class of an object. The
-- settings are non-negative, so that their conversion to `unsigned long` keeps them.

use cpp_lox.Prelude.{
  ℕ, ◌+◌, ◌-◌, ◌*◌, ◌%◌, ◌^◌, max, Bool, Option, some, List, [], ◌∷◌, length, ltb, if◌then◌else◌,
  ◌>>=◌,
}
use cpp_lox.HashMap.Keys.{Key, Default}
use cpp_lox.HashMap.{HashMap}
use cpp_lox.Object.{Object}
use cpp_lox.Gc.{Memory, Roots, mark_roots, trace_references}
use cpp_lox.Gc.Sweeping.{sweep, remove_unused_strings}

pub record Allocator (K : Type 0) : Type 0 where
  pub objs : List ℕ
  pub is_marked : ℕ → Bool
  pub interned_strings : HashMap K ℕ
  pub bytes_allocated : ℕ
  pub bytes_freed : ℕ
  pub objects_created : ℕ
  pub objects_freed : ℕ
  pub next_gc : ℕ
  pub gc_cycles : ℕ
  pub gc_disabled : Bool

-- `VMOpts`
pub record Opts : Type 0 where
  pub gc_heap_grow_factor : ℕ
  pub gc_next_collection : ℕ

unfoldable pub get_net_bytes : {K : Type 0} → Allocator K → ℕ
get_net_bytes a = (a.bytes_allocated + 2 ^ 64 - a.bytes_freed) % 2 ^ 64

module _ {K : Type 0} ⦃key : Key K⦄ ⦃value : Default ℕ⦄ (memory : Memory)
    (size_of : Object → ℕ) where
  unfoldable pub delete_object : Allocator K → ℕ → Allocator K
  delete_object a obj = record a {
    bytes_freed = (a.bytes_freed + size_of (memory obj)) % 2 ^ 64;
    objects_freed = (a.objects_freed + 1) % 2 ^ 64;
  }

  -- `free_object` on the objects that `sweep` gives it, in their order
  unfoldable pub free_objects : Allocator K → List ℕ → Allocator K
  free_objects a [] = a
  free_objects a (obj ∷ freed) = delete_object (free_objects a freed) obj

  -- `GarbageCollector::collect_garbage`
  unfoldable pub collect : Opts → Roots → Allocator K → Option (Allocator K)
  collect vopts roots a = do
    traced ←
        trace_references memory (length a.objs)
          (mark_roots (record { is_marked = a.is_marked; grey_objects = [] }) roots)
    (pool, count) ← remove_unused_strings traced.is_marked a.interned_strings
    swept ← sweep a.objs traced.is_marked
    let done =
        free_objects
          (record a { objs = swept.objects; is_marked = swept.is_marked; interned_strings = pool })
          swept.freed
    some (record done {
      next_gc =
          max (vopts.gc_heap_grow_factor * get_net_bytes done % 2 ^ 64) vopts.gc_next_collection;
    })

  -- `Allocator::collect_garbage`
  unfoldable pub collect_garbage : Opts → Roots → Allocator K → Option (Allocator K)
  collect_garbage vopts roots a =
      if a.gc_disabled
      then some a
      else (collect vopts roots a >>= λ b.
          some (record b { gc_cycles = (b.gc_cycles + 1) % 2 ^ 64 }))

  -- `create_object`, before the object itself is made
  unfoldable pub create_object : Opts → Roots → ℕ → Allocator K → Option (Allocator K)
  create_object vopts roots object_size a =
      let counted = record a {
        bytes_allocated = (a.bytes_allocated + object_size) % 2 ^ 64;
        objects_created = (a.objects_created + 1) % 2 ^ 64;
      } in
      if ltb counted.next_gc (get_net_bytes counted)
      then collect_garbage vopts roots counted
      else some counted
