-- ===== src/Gc/Create.antt =====
-- `create_object`: the count of the new object, and the collection that it may start.
use cpp_lox.Prelude.{
  ℕ, ◌+◌, ◌^◌, ◌%◌, ◌<◌, ◌≢◌, ap, ◌∙◌, inl, inr, Option, some, ltb, arith, if◌then◌else◌,
  Bool-cases, Returns, ◌>>=◌,
}
use cpp_lox.HashMap.Keys.{Key, Default}
use cpp_lox.Object.{Object}
use cpp_lox.Gc.{Memory, Roots}
use cpp_lox.Gc.Pointers.{count}
use cpp_lox.Gc.Trace.{IsReachable}
use cpp_lox.Gc.RootSet.{root_pointers, opens, next_of}
use cpp_lox.Gc.Invariant.{next-IsReachable, IsWell, owned}
use cpp_lox.Gc.Collect.{collect-Collected}
use cpp_lox.Gc.Cycle.{Allocator, Opts, get_net_bytes, collect, collect_garbage, create_object}

module _ {K : Type 0} ⦃key : Key K⦄ ⦃value : Default ℕ⦄ (memory : Memory) (size_of : Object → ℕ)
    (roots : Roots) where
  -- `b` is `a` where some of the objects that cannot be reached are gone.
  pub record Counted (pending : ℕ) (a b : Allocator K) : Type 0 where
    pub live : (x : ℕ) → IsReachable memory (root_pointers roots) x → 0 < count x b.objs
    pub old : (x : ℕ) → 0 < count x b.objs → 0 < count x a.objs
    pub next_left :
        (x : ℕ)
        → 0 < count x (opens roots.vm)
        → next_of (memory x) ≢ 0
        → 0 < count (next_of (memory x)) b.objs
    pub well : IsWell memory size_of roots pending b

  cycles-IsWell :
      (pending n : ℕ) (b : Allocator K)
      → IsWell memory size_of roots pending b
      → IsWell memory size_of roots pending (record b { gc_cycles = n })
  cycles-IsWell pending n b w = record {
    white = w.white;
    once = w.once;
    closed = w.closed;
    rooted = w.rooted;
    linked = w.linked;
    init = w.init;
    pool = w.pool;
    pooled = w.pooled;
    accounted = w.accounted;
    fits = w.fits;
  }

  -- where nothing is collected
  still :
      (pending : ℕ) (a : Allocator K) → IsWell memory size_of roots pending a → Counted pending a a
  still pending a well = record {
    live = owned memory size_of roots pending a well;
    old = λ x h. h;
    next_left = λ x h n.
        owned memory size_of roots pending a well _
          (next-IsReachable memory roots x well.linked h n);
    well = well;
  }

  collect_garbage-Counted :
      (vopts : Opts) (pending : ℕ) (a : Allocator K)
      → IsWell memory size_of roots pending a
      → Returns (collect_garbage memory size_of vopts roots a) (Counted pending a)
  unfolding collect_garbage
  collect_garbage-Counted vopts pending a well = elim (Bool-cases a.gc_disabled) [
    | inl e ↦ (a, rw e, still pending a well)
    | inr e ↦
        let (b, run, done) = collect-Collected memory size_of roots pending a well vopts in
        let next : Allocator K → Option (Allocator K) =
          λ c. some (record c { gc_cycles = (c.gc_cycles + 1) % 2 ^ 64 }) in
        let out = collect memory size_of vopts roots a in
        (
          record b { gc_cycles = (b.gc_cycles + 1) % 2 ^ 64 },
          ap (λ t. if t then some a else (out >>= next)) e ∙ ap (λ r. r >>= next) run,
          record {
            live = done.live;
            next_left = done.next_left;
            old = λ x h. owned memory size_of roots pending a well x (done.dead x h);
            well = cycles-IsWell pending _ b done.well;
          },
        )
  ]

  -- On a well formed allocator, where the sum of the bytes fits in 64 bits, `create_object` ends: every
  -- object that the collector's pointers lead to from the roots is still there, and the `next` of each
  -- open upvalue too; none appears, and the result is well formed with the bytes of the new object
  -- pending. The `next` of a closed upvalue is not followed, and what only it leads to may be gone.
  pub create_object-Counted :
      (vopts : Opts) (object_size : ℕ) (a : Allocator K)
      → IsWell memory size_of roots 0 a
      → a.bytes_allocated + object_size < 2 ^ 64
      → Returns (create_object memory size_of vopts roots object_size a) (Counted object_size a)
  unfolding create_object
  create_object-Counted vopts object_size a well fits =
      let counted : Allocator K = record a {
        bytes_allocated = (a.bytes_allocated + object_size) % 2 ^ 64;
        objects_created = (a.objects_created + 1) % 2 ^ 64;
      } in
      let counted_well : IsWell memory size_of roots object_size counted = record {
        white = well.white;
        once = well.once;
        closed = well.closed;
        rooted = well.rooted;
        linked = well.linked;
        init = well.init;
        pool = well.pool;
        pooled = well.pooled;
        accounted = omega (arith, well.accounted);
        fits = omega arith;
      } in
      let stays = still object_size counted counted_well in
      elim (Bool-cases (ltb counted.next_gc (get_net_bytes counted))) [
        | inr e ↦ (
          counted,
          rw e,
          record {
            live = stays.live;
            old = λ x h. h;
            next_left = stays.next_left;
            well = counted_well;
          },
        )
        | inl e ↦
            let (b, run, done) = collect_garbage-Counted vopts object_size counted counted_well in
            (
              b,
              rw (e, run),
              record {
                live = done.live;
                old = done.old;
                next_left = done.next_left;
                well = done.well;
              },
            )
      ]
