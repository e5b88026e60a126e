-- ===== src/Gc/Collect.antt =====
-- One collection as a whole: what it keeps, what it frees, and the invariant of the allocator.
use cpp_lox.Prelude.{
  ℕ, ◌+◌, ◌*◌, ◌^◌, ◌%◌, ◌<◌, ◌≡◌, ◌↔◌, refl, ap, ◌∙◌, sym, inl, inr, Bool, true, Option, none,
  some, List, [], ◌∷◌, max, arith, Bool-cases, Returns,
}
use cpp_lox.HashMap.Keys.{Key, Default}
use cpp_lox.HashMap.{HashMap}
use cpp_lox.HashMap.View.{view}
use cpp_lox.Object.{Object}
use cpp_lox.Gc.{Memory, Marking, Roots}
use cpp_lox.Gc.Pointers.{count}
use cpp_lox.Gc.Trace.{IsReachable, reachable_ne, root, field}
use cpp_lox.Gc.RootSet.{root_pointers}
use cpp_lox.Gc.SwapErase.{weigh}
use cpp_lox.Gc.Sweeping.{Swept}
use cpp_lox.Gc.Sweep.{Sweeps, sweep-Sweeps}
use cpp_lox.Gc.Strings.{Kept, marked_only, remove_unused_strings-Kept}
use cpp_lox.Gc.Invariant.{
  next-IsReachable, byte_size, IsWell, Collected, Traced, owned, trace-Traced,
}
use cpp_lox.Gc.Cycle.{Allocator, Opts, get_net_bytes, delete_object, free_objects, collect}

marked_only-some :
    (marks : ℕ → Bool) (o : Option ℕ) (x : ℕ)
    → (marked_only marks o ≡ some x) ↔ ((o ≡ some x) × (marks x ≡ true))
unfolding marked_only
marked_only-some marks none x = (λ h. absurd (cc h), λ h. absurd (cc (h.0)))
marked_only-some marks (some a) x = elim (Bool-cases (marks a)) [
  | inl e ↦ (λ h. (rw e at h, cc (e, rw e at h)), λ h. rw e h.0)
  | inr e ↦ (λ h. absurd (cc (rw e at h)), λ h. absurd (cc (e, h.0, h.1)))
]

module _ {K : Type 0} ⦃key : Key K⦄ ⦃value : Default ℕ⦄ (memory : Memory) (size_of : Object → ℕ)
    (roots : Roots) where
  free_objects-bytes :
      (b : Allocator K) (freed : List ℕ)
      → count 0 freed ≡ 0
      → b.bytes_freed + weigh (byte_size memory size_of) freed < 2 ^ 64
      → (n : ℕ) × (free_objects memory size_of b freed ≡ record b {
        bytes_freed = b.bytes_freed + weigh (byte_size memory size_of) freed;
        objects_freed = n;
      })
  unfolding free_objects delete_object weigh byte_size count
  free_objects-bytes b [] z h = (
    b.objects_freed,
    ap (λ t. record b { bytes_freed = t; objects_freed = b.objects_freed }) (omega arith),
  )
  free_objects-bytes b (x ∷ freed) z h =
      let (n, e) = free_objects-bytes b freed (ground (arith, z)) (ground (arith, h)) in
      (
        (n + 1) % 2 ^ 64,
        ap (λ c. delete_object memory size_of c x) e
            ∙ ap (λ t. record b { bytes_freed = t; objects_freed = (n + 1) % 2 ^ 64 })
                (ground (arith, z, h)),
      )

  module _ (pending : ℕ) (a : Allocator K) (well : IsWell memory size_of roots pending a) where
    assembled :
        (m : Marking) (pool : HashMap K ℕ × ℕ) (s : Swept) (freed objects_freed next_gc : ℕ)
        → Traced memory roots m
        → Kept m.is_marked a.interned_strings pool
        → Sweeps a.objs m.is_marked s
        → freed ≡ a.bytes_freed + weigh (byte_size memory size_of) s.freed
        → Collected memory size_of roots pending a (record a {
          objs = s.objects;
          is_marked = s.is_marked;
          interned_strings = pool.0;
          bytes_freed = freed;
          objects_freed = objects_freed;
          next_gc = next_gc;
        })
    unfolding marked_only byte_size
    assembled m pool s freed objects_freed next_gc traced kept swept e =
        let live : (x : ℕ) → IsReachable memory (root_pointers roots) x → 0 < count x s.objects =
          λ x w. ground (
            arith,
            swept.objects x,
            (traced x).1 w,
            reachable_ne memory _ x w,
            owned memory size_of roots pending a well x w,
          ) in
        let dead : (x : ℕ) → 0 < count x s.objects → IsReachable memory (root_pointers roots) x =
          λ x h. (traced x).0 (ground (arith, swept.objects x)) in
        let strings : (k : K) (x : ℕ)
            → (view pool.0.slots k ≡ some x) ↔ (
                (view a.interned_strings.slots k ≡ some x)
                × IsReachable memory (root_pointers roots) x) =
          λ k x.
            let both = marked_only-some m.is_marked (view a.interned_strings.slots k) x in
            (
              λ h. let (seen, mark) = both.0 (sym (kept.reads k) ∙ h) in (seen, (traced x).0 mark),
              λ (seen, w). kept.reads k ∙ both.1 (seen, (traced x).1 w),
            ) in
        record {
          live = live;
          dead = dead;
          strings = strings;
          next_left = λ x h n. live _ (next-IsReachable memory roots x well.linked h n);
          well = record {
            white = λ x. elim (Bool-cases (s.is_marked x)) [
              | inl e' ↦ swept.reset x (live x ((traced x).0 (swept.marked x e')))
              | inr e' ↦ e'
            ];
            once = λ x n. ground (arith, swept.objects x, well.once x n);
            closed = λ x y h n p. live y (field x y (dead x h) n p);
            rooted = λ y n h. live y (root y n h);
            linked = well.linked;
            init = λ x h. well.init x (ground (arith, swept.objects x));
            pool = kept.valid;
            pooled =
                λ k x h. let (seen, w) = (strings k x).0 h in ((well.pooled k x seen).0, live x w);
            accounted =
                omega (arith, e, well.accounted, swept.weight (byte_size memory size_of) refl);
            fits = well.fits;
          };
        }

    -- On a well formed allocator a collection ends. The objects left are the ones that a chain of
    -- pointers that are followed, which are all save the `next` of an upvalue, leads to from the
    -- roots; the pool keeps their strings and no others. The result is well formed again: no pointer
    -- that is followed leads from an object left, a root or an entry of the pool to a freed object,
    -- and neither does the `next` of an open upvalue. That of a closed one, which nothing reads, may.
    pub collect-Collected :
        (vopts : Opts)
        → Returns (collect memory size_of vopts roots a) (Collected memory size_of roots pending a)
    unfolding collect byte_size
    collect-Collected vopts =
        let (m, run, traced) = trace-Traced memory size_of roots pending a well in
        let (pool, run', kept) =
          remove_unused_strings-Kept m.is_marked a.interned_strings well.pool in
        let (s, run'', swept) = sweep-Sweeps a.objs m.is_marked well.once in
        let b : Allocator K = record a {
          objs = s.objects;
          is_marked = s.is_marked;
          interned_strings = pool.0;
        } in
        let heavy = swept.weight (byte_size memory size_of) refl in
        let (n, e) =
          free_objects-bytes b s.freed (swept.freed 0)
            (omega (arith, well.accounted, well.fits, heavy)) in
        let next : Allocator K → Option (Allocator K) = λ c. some (record c {
          next_gc =
              max (vopts.gc_heap_grow_factor * get_net_bytes c % 2 ^ 64) vopts.gc_next_collection;
        }) in
        let ends : collect memory size_of vopts roots a
            ≡ next (free_objects memory size_of b s.freed) =
          rw (run, run', run'') in
        (_, ends ∙ ap next e, assembled m pool s _ n _ traced kept swept refl)
