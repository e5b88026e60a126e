-- ===== src/Upvalue/Captured.antt =====
-- `capture_upvalue` as a whole, from the first of the open upvalues.
use cpp_lox.Prelude.{
  ℕ, zero, suc, ◌<◌, ◌≤◌, ◌≡◌, ◌≢◌, refl, ap, ◌∙◌, subst, sym, inl, inr, true, false, List, [], ◌∷◌,
  ltb, ◌==◌, arith, length, get_or, Bool-cases,
}
use cpp_lox.Object.{Value, nil}
use cpp_lox.Upvalue.{
  Location, slot_at, own, Upvalue, Memory, Machine, write, deref, is_above, is_slot, link,
  capture_upvalue,
}
use cpp_lox.Upvalue.Chain.{Chain, Descending, Chain-agree}
use cpp_lox.Upvalue.Capture.{
  inserted, address, inserted-Descending, inserted-low, address-low, from, from-stop, from-go,
  finish-new, finish-found, not_fresh, Linked, from-Linked,
}

look : List Value → Location → Value → Value
look evalstack (slot_at i) closed = get_or evalstack i nil
look evalstack own closed = closed

-- what an upvalue reads depends on its place, its own value and the stack
deref_lem :
    (s : Machine) (u : Upvalue) (l : Location)
    → deref s (record u { location = l }) ≡ look s.evalstack l u.closed
unfolding deref look
deref_lem s u (slot_at i) = refl
deref_lem s u own = refl

module _ (slot fresh : ℕ) where
  -- the node for the slot is an upvalue of the slot
  address-location :
      (m : Memory) (head : ℕ) (nodes : List (ℕ × ℕ))
      → Chain m head (inserted slot fresh nodes)
      → (m (address slot fresh nodes)).location ≡ slot_at slot
  unfolding inserted address
  address-location m head [] (e, z, l, c) = l
  address-location m head ((a, i) ∷ nodes) c = elim (Bool-cases (ltb slot i)) [
    | inl u ↦ rw (address, u) (address-location m (m a).next nodes (rw (inserted, u) at c).3)
    | inr u ↦ elim (Bool-cases (i == slot)) [
      | inl v ↦ rw (address, u, v) ((rw (inserted, u, v) at c).2 ∙ ap slot_at (ground arith))
      | inr v ↦ rw (address, u, v) (rw (inserted, u, v) at c).2
    ]
  ]

  -- `r` is the upvalue of the slot, and the machine after the capture in `s`.
  pub record Captured (bound : ℕ) (nodes : List (ℕ × ℕ)) (s : Machine) (r : ℕ × Machine)
      : Type 0 where
    pub chain : Chain r.1.memory r.1.open_upvalues (inserted slot fresh nodes)
    pub descending : Descending bound (inserted slot fresh nodes)
    pub found : r.0 ≡ address slot fresh nodes
    pub place : (r.1.memory r.0).location ≡ slot_at slot
    pub evalstack : r.1.evalstack ≡ s.evalstack
    pub reads : (b : ℕ) → b ≢ fresh → deref r.1 (r.1.memory b) ≡ deref s (s.memory b)

  -- `Captured` without what follows from the rest
  record Done (nodes : List (ℕ × ℕ)) (s : Machine) (r : ℕ × Machine) : Type 0 where
    chain : Chain r.1.memory r.1.open_upvalues (inserted slot fresh nodes)
    found : r.0 ≡ address slot fresh nodes
    evalstack : r.1.evalstack ≡ s.evalstack
    location : (b : ℕ) → b ≢ fresh → (r.1.memory b).location ≡ (s.memory b).location
    closed : (b : ℕ) → b ≢ fresh → (r.1.memory b).closed ≡ (s.memory b).closed

  Done-Captured :
      (bound : ℕ) (nodes : List (ℕ × ℕ)) (s : Machine) (r : ℕ × Machine)
      → slot < bound
      → Descending bound nodes
      → Done nodes s r
      → Captured bound nodes s r
  Done-Captured bound nodes s r h d w = record {
    chain = w.chain;
    descending = inserted-Descending slot fresh bound nodes h d;
    found = w.found;
    place =
        ap (λ x. (r.1.memory x).location) w.found
        ∙ address-location r.1.memory r.1.open_upvalues nodes w.chain;
    evalstack = w.evalstack;
    reads = λ b n.
        deref_lem r.1 (r.1.memory b) _
        ∙ cc (w.location b n, w.closed b n, w.evalstack)
        ∙ sym (deref_lem s (s.memory b) _);
  }

  -- a new node before all others
  first-Done :
      (nodes : List (ℕ × ℕ)) (s : Machine)
      → fresh ≢ 0
      → ((j : ℕ) → (s.memory fresh).location ≢ slot_at j)
      → Chain s.memory s.open_upvalues nodes
      → Descending slot nodes
      → Done nodes s (fresh, link s slot fresh 0 s.open_upvalues)
  unfolding link
  first-Done nodes s f new c d =
      let e : (fresh == fresh) ≡ true = ground arith in
      let made : Upvalue = record {
        next = s.open_upvalues;
        closed = nil;
        location = slot_at slot;
      } in
      let m : Memory = write s.memory fresh made in
      let at_fresh : m fresh ≡ made = rw e in
      let low : Chain m s.open_upvalues nodes =
        Chain-agree s.memory m s.open_upvalues nodes slot d
          (λ b j h k. rw (not_fresh slot fresh s new b j k)) c in
      record {
        chain = subst (Chain m fresh) (sym (inserted-low slot fresh nodes d)) (
          refl,
          f,
          ap (λ u. u.location) at_fresh,
          subst (λ u. Chain m u.next nodes) (sym at_fresh) low,
        );
        found = address-low slot fresh nodes d;
        evalstack = refl;
        location = λ b n. let x : (b == fresh) ≡ false = ground arith in rw x;
        closed = λ b n. let x : (b == fresh) ≡ false = ground arith in rw x;
      }

  found-Done :
      (a i : ℕ) (nodes : List (ℕ × ℕ)) (s : Machine)
      → Chain s.memory s.open_upvalues ((a, i) ∷ nodes)
      → ltb slot i ≡ false
      → (i == slot) ≡ true
      → Done ((a, i) ∷ nodes) s (s.open_upvalues, s)
  unfolding inserted address
  found-Done a i nodes s c u v = record {
    chain = rw (inserted, u, v) c;
    found = rw (address, u, v) c.0;
    evalstack = refl;
    location = λ b n. refl;
    closed = λ b n. refl;
  }

  behind-Done :
      (a i : ℕ) (nodes : List (ℕ × ℕ)) (s : Machine) (r : ℕ × Machine)
      → Chain s.memory s.open_upvalues ((a, i) ∷ nodes)
      → ltb slot i ≡ true
      → a ≢ fresh
      → Linked slot fresh s.open_upvalues i nodes s r
      → Done ((a, i) ∷ nodes) s r
  unfolding inserted address
  behind-Done a i nodes s r (e, z, l, c) u n w = record {
    chain =
        rw (inserted, u)
          (
            w.head ∙ e,
            z,
            w.location a n ∙ l,
            subst (λ t. Chain r.1.memory (r.1.memory t).next (inserted slot fresh nodes)) e w.chain,
          );
    found = rw (address, u) w.found;
    evalstack = w.evalstack;
    location = w.location;
    closed = w.closed;
  }

  from-Done :
      (fuel bound : ℕ) (nodes : List (ℕ × ℕ)) (s : Machine)
      → fresh ≢ 0
      → ((j : ℕ) → (s.memory fresh).location ≢ slot_at j)
      → Chain s.memory s.open_upvalues nodes
      → Descending bound nodes
      → length nodes ≤ fuel
      → Done nodes s (from slot fresh fuel s 0 s.open_upvalues)
  unfolding is_above is_slot
  from-Done fuel bound [] s f new c d h =
      let e : (s.open_upvalues == 0) ≡ true = ground arith in
      subst (Done [] s)
        (sym (
          from-stop slot fresh fuel s 0 s.open_upvalues (rw e)
          ∙ finish-new slot fresh s 0 s.open_upvalues (rw e)))
        (first-Done [] s f new c tt)
  from-Done zero bound ((a, i) ∷ nodes) s f new c d h = absurd (omega arith)
  from-Done (suc fuel) bound ((a, i) ∷ nodes) s f new (e, z, l, c) (k, d) h =
      let head = s.open_upvalues in
      let place : (s.memory head).location ≡ slot_at i = ap (λ x. (s.memory x).location) e ∙ l in
      let some_node : (head == 0) ≡ false = ground arith in
      elim (Bool-cases (ltb slot i)) [
        | inl u ↦
            let c' = subst (λ x. Chain s.memory (s.memory x).next nodes) (sym e) c in
            let rest =
              from-Linked slot fresh fuel head i (s.memory head).next nodes s (λ x. z (sym e ∙ x)) f
                new place refl (ground arith) c' d (omega arith) in
            let other : a ≢ fresh = λ x. new i (ap (λ t. (s.memory t).location) (sym x) ∙ l) in
            subst (Done ((a, i) ∷ nodes) s)
              (sym (from-go slot fresh fuel s 0 head (rw (some_node, place) u)))
              (behind-Done a i nodes s _ (e, z, l, c) u other rest)
        | inr u ↦
            let stops = from-stop slot fresh (suc fuel) s 0 head (rw (some_node, place) u) in
            elim (Bool-cases (i == slot)) [
              | inl v ↦
                  subst (Done ((a, i) ∷ nodes) s)
                    (sym (stops ∙ finish-found slot fresh s 0 head (rw (some_node, place) v)))
                    (found-Done a i nodes s (e, z, l, c) u v)
              | inr v ↦
                  subst (Done ((a, i) ∷ nodes) s)
                    (sym (stops ∙ finish-new slot fresh s 0 head (rw (some_node, place) v)))
                    (first-Done ((a, i) ∷ nodes) s f new (e, z, l, c) (ground arith, d))
            ]
      ]

  -- On the chain of the open upvalues, whose slots descend, with a slot of the stack, a fresh
  -- address that holds no open upvalue, and fuel for each of them, the capture gives the upvalue
  -- of the slot: the one that is open already, or the new one. The chain then has one upvalue for
  -- the slot, the slots descend, and all other upvalues read as before.
  pub capture_upvalue-Captured :
      (fuel bound : ℕ) (nodes : List (ℕ × ℕ)) (s : Machine)
      → slot < bound
      → fresh ≢ 0
      → ((j : ℕ) → (s.memory fresh).location ≢ slot_at j)
      → Chain s.memory s.open_upvalues nodes
      → Descending bound nodes
      → length nodes ≤ fuel
      → Captured bound nodes s (capture_upvalue fuel slot fresh s)
  unfolding capture_upvalue is_above is_slot
  capture_upvalue-Captured fuel bound nodes s h f new c d enough =
      Done-Captured bound nodes s (from slot fresh fuel s 0 s.open_upvalues) h d
        (from-Done fuel bound nodes s f new c d enough)
