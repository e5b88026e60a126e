-- ===== src/Gc/Invariant.antt =====
-- What holds of the allocator between two collections, and the marks at the end of a trace.
use cpp_lox.Prelude.{
  ℕ, ◌+◌, ◌^◌, ◌<◌, ◌≤◌, ◌≡◌, ◌≢◌, ◌↔◌, true, false, some, [], ◌==◌, if◌then◌else◌, arith, length,
  Returns,
}
use cpp_lox.HashMap.Keys.{Key, Default}
use cpp_lox.HashMap.View.{view}
use cpp_lox.HashMap.Valid.{IsValid}
use cpp_lox.Object.{Object}
use cpp_lox.Gc.{Memory, Marking, Roots, mark_roots, trace_references}
use cpp_lox.Gc.Pointers.{count, pointers, HasInit}
use cpp_lox.Gc.Marks.{white-le-length, mark_all-Marks}
use cpp_lox.Gc.Trace.{
  IsReachable, root, field, roots-IsTricolour, trace-IsTricolour, marked-IsReachable,
}
use cpp_lox.Gc.RootSet.{
  root_pointers, opens, opens-root_pointers, Linked-next, next_of, Linked, mark_roots_lem,
}
use cpp_lox.Gc.SwapErase.{weigh}
use cpp_lox.Gc.Cycle.{Allocator}

-- what `delete_object` adds to the counter
unfoldable pub byte_size : Memory → (Object → ℕ) → ℕ → ℕ
byte_size memory size_of x = if x == 0 then 0 else size_of (memory x)

-- the marks at the end of the trace
abbrev pub Traced : Memory → Roots → Marking → Type 0
Traced memory roots m =
    (x : ℕ) → (m.is_marked x ≡ true) ↔ IsReachable memory (root_pointers roots) x

-- the `next` of an open upvalue is a root
pub next-IsReachable :
    (memory : Memory) (roots : Roots) (x : ℕ)
    → Linked memory (opens roots.vm)
    → 0 < count x (opens roots.vm)
    → next_of (memory x) ≢ 0
    → IsReachable memory (root_pointers roots) (next_of (memory x))
next-IsReachable memory roots x linked h n =
    root _ n (opens-root_pointers roots _ (Linked-next memory (opens roots.vm) x linked h n))

module _ {K : Type 0} ⦃key : Key K⦄ ⦃value : Default ℕ⦄ (memory : Memory) (size_of : Object → ℕ)
    (roots : Roots) where
  -- Between two collections, where `pending` bytes are counted for an object that is yet to come.
  -- The open upvalues are linked by `next`; nothing is asked of the `next` of a closed upvalue.
  pub record IsWell (pending : ℕ) (a : Allocator K) : Type 0 where
    pub white : (x : ℕ) → a.is_marked x ≡ false
    pub once : (x : ℕ) → x ≢ 0 → count x a.objs ≤ 1
    pub closed :
        (x y : ℕ)
        → 0 < count x a.objs
        → y ≢ 0
        → 0 < count y (pointers (memory x))
        → 0 < count y a.objs
    pub rooted : (y : ℕ) → y ≢ 0 → 0 < count y (root_pointers roots) → 0 < count y a.objs
    pub linked : Linked memory (opens roots.vm)
    pub init : (x : ℕ) → 0 < count x a.objs → HasInit (memory x)
    pub pool : IsValid a.interned_strings
    pub pooled :
        (k : K) (x : ℕ) → view a.interned_strings.slots k ≡ some x → (x ≢ 0) × (0 < count x a.objs)
    pub accounted :
        a.bytes_freed + weigh (byte_size memory size_of) a.objs + pending ≡ a.bytes_allocated
    pub fits : a.bytes_allocated < 2 ^ 64

  -- `b` is `a` without the objects that cannot be reached.
  pub record Collected (pending : ℕ) (a b : Allocator K) : Type 0 where
    pub live : (x : ℕ) → IsReachable memory (root_pointers roots) x → 0 < count x b.objs
    pub dead : (x : ℕ) → 0 < count x b.objs → IsReachable memory (root_pointers roots) x
    pub strings :
        (k : K) (x : ℕ)
        → (view b.interned_strings.slots k ≡ some x) ↔ (
            (view a.interned_strings.slots k ≡ some x) × IsReachable memory (root_pointers roots) x)
    pub next_left :
        (x : ℕ)
        → 0 < count x (opens roots.vm)
        → next_of (memory x) ≢ 0
        → 0 < count (next_of (memory x)) b.objs
    pub well : IsWell pending b

  module _ (pending : ℕ) (a : Allocator K) (well : IsWell pending a) where
    pub owned : (x : ℕ) → IsReachable memory (root_pointers roots) x → 0 < count x a.objs
    owned _ (root x n h) = well.rooted x n h
    owned _ (field x y w n h) = well.closed x y (owned x w) n h

    -- On a well formed allocator the trace from the roots ends within one round per object, and
    -- marks exactly the objects that a chain of pointers that are followed leads to: all pointers,
    -- save the `next` of an upvalue, which the source does not follow.
    pub trace-Traced :
        Returns
          (trace_references memory
            (length a.objs)
            (mark_roots (record { is_marked = a.is_marked; grey_objects = [] }) roots))
          (Traced memory roots)
    trace-Traced =
        let s : Marking = record { is_marked = a.is_marked; grey_objects = [] } in
        let m = mark_all-Marks s (root_pointers roots) in
        let inv = roots-IsTricolour memory (root_pointers roots) a.is_marked _ well.white m in
        let (r, run, (inv', e)) =
          trace-IsTricolour memory (root_pointers roots) a.objs owned (length a.objs) _ inv
            (omega (arith, m.fewer a.objs well.rooted, white-le-length a.is_marked a.objs)) in
        (
          r,
          rw (mark_roots_lem s roots) run,
          λ x. (
            inv'.reached x,
            marked-IsReachable memory (root_pointers roots) r (λ y w. well.init y (owned y w)) inv'
                e x,
          ),
        )
