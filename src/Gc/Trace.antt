-- ===== src/Gc/Trace.antt =====
-- `trace_references` against reachability.
use cpp_lox.Prelude.{
  ℕ, zero, suc, ◌+◌, ◌≤◌, ◌<◌, ◌≡◌, ◌≢◌, refl, ap, inl, inr, Bool, true, false, List, [], ◌∷◌, ◌==◌,
  arith, length, Bool-cases, Returns, subst, List-cases,
}
use cpp_lox.Gc.{Memory, Marking, trace_references}
use cpp_lox.Gc.Pointers.{
  count, pointers, visited, HasInit, visited-pointers, pointers-visited, blacken_lem,
}
use cpp_lox.Gc.Marks.{Marks, white, mark_all-Marks}

module _ (memory : Memory) (roots : List ℕ) where
  -- an object that a chain of pointers from the roots leads to
  pub data IsReachable : ℕ → Type 0 where
    root : (a : ℕ) → a ≢ 0 → 0 < count a roots → IsReachable a
    field : (a b : ℕ) → IsReachable a → b ≢ 0 → 0 < count b (pointers (memory a)) → IsReachable b

  -- A marked object is reachable, and where it is not grey its pointers are marked.
  pub record IsTricolour (s : Marking) : Type 0 where
    pub grey : (a : ℕ) → 0 < count a s.grey_objects → s.is_marked a ≡ true
    pub black :
        (a b : ℕ)
        → s.is_marked a ≡ true
        → count a s.grey_objects ≡ 0
        → b ≢ 0
        → 0 < count b (visited (memory a))
        → s.is_marked b ≡ true
    pub reached : (a : ℕ) → s.is_marked a ≡ true → IsReachable a
    pub rooted : (a : ℕ) → a ≢ 0 → 0 < count a roots → s.is_marked a ≡ true

  pub reachable_ne : (a : ℕ) → IsReachable a → a ≢ 0
  reachable_ne _ (root a n h) = n
  reachable_ne _ (field a b w n h) = n

  pub roots-IsTricolour :
      (f : ℕ → Bool) (r : Marking)
      → ((a : ℕ) → f a ≡ false)
      → Marks (record { is_marked = f; grey_objects = [] }) roots r
      → IsTricolour r
  unfolding count
  roots-IsTricolour f r blank m = record {
    grey = λ a h. ground (arith, m.grey a, blank a);
    black = λ a b h k n l. ground (arith, m.grey a, blank a);
    reached =
        λ a h. elim (m.origin a h) [ inl e ↦ absurd (cc (e, blank a)) | inr (n, k) ↦ root a n k ];
    rooted = m.marks;
  }

  -- one round of the loop
  blacken-IsTricolour :
      (s r : Marking) (last : ℕ) (rest : List ℕ)
      → s.grey_objects ≡ last ∷ rest
      → IsTricolour s
      → Marks (record s { grey_objects = rest }) (visited (memory last)) r
      → IsTricolour r
  unfolding count
  blacken-IsTricolour s r last rest e inv m =
      let grey_count : (a : ℕ) → count a s.grey_objects ≡ count a (last ∷ rest) =
        λ a. ap (count a) e in
      let last_marked = inv.grey last (ground (arith, grey_count last)) in
      record {
        grey = λ a h. ground (arith, m.grey a, m.keeps a, inv.grey a, grey_count a);
        black = λ a b h k n l. elim (Bool-cases (a == last)) [
          | inl x ↦ m.marks b n (subst (λ y. 0 < count b (visited (memory y))) (ground arith) l)
          | inr x ↦ m.keeps b (
              inv.black a b (ground (arith, m.grey a)) (ground (arith, m.grey a, grey_count a)) n l)
        ];
        reached = λ a h. elim (m.origin a h) [
          | inl k ↦ inv.reached a k
          | inr (n, k) ↦
              field last a (inv.reached last last_marked) n (pointers-visited (memory last) a k)
        ];
        rooted = λ a n k. m.keeps a (inv.rooted a n k);
      }

  -- Every reachable object belongs to the allocator.
  abbrev pub IsOwned : List ℕ → Type 0
  IsOwned objects = (a : ℕ) → IsReachable a → 0 < count a objects

  pub trace-IsTricolour :
      (objects : List ℕ)
      → IsOwned objects
      → (fuel : ℕ) (s : Marking) → IsTricolour s
      → white s.is_marked objects + length s.grey_objects ≤ fuel
      → Returns (trace_references memory fuel s) (λ r. IsTricolour r × (r.grey_objects ≡ []))
  unfolding trace_references count
  trace-IsTricolour objects owned zero s inv enough = elim (List-cases s.grey_objects) [
    | inl e ↦ (s, rw e, (inv, e))
    | inr (last, rest, e) ↦ absurd (omega (arith, ap length e))
  ]
  trace-IsTricolour objects owned (suc fuel) s inv enough = elim (List-cases s.grey_objects) [
    | inl e ↦ (s, rw e, (inv, e))
    | inr (last, rest, e) ↦
        let m = mark_all-Marks (record s { grey_objects = rest }) (visited (memory last)) in
        let seen = inv.reached last (inv.grey last (ground (arith, ap (count last) e))) in
        let fewer =
          m.fewer objects
            (λ a n k. owned a (field last a seen n (pointers-visited (memory last) a k))) in
        let inv' = blacken-IsTricolour s _ last rest e inv m in
        let (r, run, out) =
          trace-IsTricolour objects owned fuel _ inv' (omega (arith, fewer, ap length e)) in
        (r, rw (e, blacken_lem (record s { grey_objects = rest }) (memory last)) run, out)
  ]

  -- At the end the marked objects are the reachable ones.
  pub marked-IsReachable :
      (r : Marking)
      → ((a : ℕ) → IsReachable a → HasInit (memory a))
      → IsTricolour r
      → r.grey_objects ≡ []
      → (a : ℕ) → IsReachable a
      → r.is_marked a ≡ true
  unfolding count
  marked-IsReachable r init inv e _ (root a n k) = inv.rooted a n k
  marked-IsReachable r init inv e _ (field a b w n k) =
      inv.black a b (marked-IsReachable r init inv e a w) (rw e refl) n
        (visited-pointers (memory a) (init a w) b k)
