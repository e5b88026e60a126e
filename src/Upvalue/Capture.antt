-- ===== src/Upvalue/Capture.antt =====
-- `capture_upvalue` finds the upvalue of a slot, or puts a new one where it belongs.
use cpp_lox.Prelude.{
  ℕ, zero, suc, ◌<◌, ◌≤◌, ◌≡◌, ◌≢◌, refl, ap, ◌∙◌, subst, sym, inl, inr, true, false, not, ◌&&◌,
  List, [], ◌∷◌, ltb, ◌==◌, if◌then◌else◌, arith, length, Bool-cases,
}
use cpp_lox.Object.{nil}
use cpp_lox.Upvalue.{slot_at, Memory, Machine, write, is_above, is_slot, find_place, link}
use cpp_lox.Upvalue.Chain.{Chain, Descending, Chain-agree, slot_at-injective}

-- the nodes with one for the slot
unfoldable pub inserted : ℕ → ℕ → List (ℕ × ℕ) → List (ℕ × ℕ)
inserted slot fresh [] = (fresh, slot) ∷ []
inserted slot fresh ((a, i) ∷ nodes) =
    if ltb slot i
    then (a, i) ∷ inserted slot fresh nodes
    else if i == slot
    then (a, i) ∷ nodes
    else (fresh, slot) ∷ (a, i) ∷ nodes

-- the address of the node for the slot
unfoldable pub address : ℕ → ℕ → List (ℕ × ℕ) → ℕ
address slot fresh [] = fresh
address slot fresh ((a, i) ∷ nodes) =
    if ltb slot i then address slot fresh nodes else if i == slot then a else fresh

pub inserted-Descending :
    (slot fresh bound : ℕ) (nodes : List (ℕ × ℕ))
    → slot < bound
    → Descending bound nodes
    → Descending bound (inserted slot fresh nodes)
unfolding inserted
inserted-Descending slot fresh bound [] h d = (h, tt)
inserted-Descending slot fresh bound ((a, i) ∷ nodes) h (k, d) = elim (Bool-cases (ltb slot i)) [
  | inl e ↦ rw (inserted, e) (k, inserted-Descending slot fresh i nodes (ground arith) d)
  | inr e ↦ elim (Bool-cases (i == slot)) [
    | inl f ↦ rw (inserted, e, f) (k, d)
    | inr f ↦ rw (inserted, e, f) (h, (ground arith, d))
  ]
]

pub inserted-low :
    (slot fresh : ℕ) (nodes : List (ℕ × ℕ))
    → Descending slot nodes
    → inserted slot fresh nodes ≡ (fresh, slot) ∷ nodes
unfolding inserted
inserted-low slot fresh [] d = refl
inserted-low slot fresh ((a, i) ∷ nodes) (h, d) =
    let e : ltb slot i ≡ false = ground arith in
    let f : (i == slot) ≡ false = ground arith in rw (e, f)

pub address-low :
    (slot fresh : ℕ) (nodes : List (ℕ × ℕ))
    → Descending slot nodes
    → fresh ≡ address slot fresh nodes
unfolding address
address-low slot fresh [] d = refl
address-low slot fresh ((a, i) ∷ nodes) (h, d) = ground arith

-- upvalues of different slots have different addresses
pub other_slot :
    (m : Memory) (b a j i : ℕ)
    → j ≢ i
    → (m b).location ≡ slot_at j
    → (m a).location ≡ slot_at i
    → (b == a) ≡ false
other_slot m b a j i n k l = elim (Bool-cases (b == a)) [
  | inl e ↦ absurd (n (slot_at-injective j i (sym k ∙ ap (λ x. (m x).location) (ground arith) ∙ l)))
  | inr e ↦ e
]

-- `capture_upvalue` from the node behind `prev`
module _ (slot fresh : ℕ) where
  abbrev pub finish : Machine → ℕ × ℕ → ℕ × Machine
  finish s place =
      if not (place.1 == 0) && is_slot (s.memory place.1).location slot
      then (place.1, s)
      else (fresh, link s slot fresh place.0 place.1)

  abbrev pub from : ℕ → Machine → ℕ → ℕ → ℕ × Machine
  from fuel s prev current = finish s (find_place fuel s.memory slot prev current)

  pub from-stop :
      (fuel : ℕ) (s : Machine) (prev current : ℕ)
      → (not (current == 0) && is_above (s.memory current).location slot) ≡ false
      → from fuel s prev current ≡ finish s (prev, current)
  unfolding find_place
  from-stop zero s prev current e = refl
  from-stop (suc fuel) s prev current e = ap (finish s) (rw (find_place, e))

  pub from-go :
      (fuel : ℕ) (s : Machine) (prev current : ℕ)
      → (not (current == 0) && is_above (s.memory current).location slot) ≡ true
      → from (suc fuel) s prev current ≡ from fuel s current (s.memory current).next
  unfolding find_place
  from-go fuel s prev current e = ap (finish s) (rw (find_place, e))

  pub finish-new :
      (s : Machine) (prev current : ℕ)
      → (not (current == 0) && is_slot (s.memory current).location slot) ≡ false
      → finish s (prev, current) ≡ (fresh, link s slot fresh prev current)
  finish-new s prev current e = rw e

  pub finish-found :
      (s : Machine) (prev current : ℕ)
      → (not (current == 0) && is_slot (s.memory current).location slot) ≡ true
      → finish s (prev, current) ≡ (current, s)
  finish-found s prev current e = rw e

  -- what the capture does behind a node `prev` of slot `p`
  pub record Linked (prev p : ℕ) (nodes : List (ℕ × ℕ)) (s : Machine) (r : ℕ × Machine)
      : Type 0 where
    pub chain : Chain r.1.memory (r.1.memory prev).next (inserted slot fresh nodes)
    pub head : r.1.open_upvalues ≡ s.open_upvalues
    pub found : r.0 ≡ address slot fresh nodes
    pub evalstack : r.1.evalstack ≡ s.evalstack
    pub higher : (b j : ℕ) → p < j → (s.memory b).location ≡ slot_at j → r.1.memory b ≡ s.memory b
    pub location : (b : ℕ) → b ≢ fresh → (r.1.memory b).location ≡ (s.memory b).location
    pub closed : (b : ℕ) → b ≢ fresh → (r.1.memory b).closed ≡ (s.memory b).closed

  pub not_fresh :
      (s : Machine)
      → ((j : ℕ) → (s.memory fresh).location ≢ slot_at j)
      → (b j : ℕ) → (s.memory b).location ≡ slot_at j
      → (b == fresh) ≡ false
  not_fresh s new b j k = elim (Bool-cases (b == fresh)) [
    | inl e ↦ absurd (new j (ap (λ x. (s.memory x).location) (ground arith) ∙ k))
    | inr e ↦ e
  ]

  stop-Linked :
      (fuel prev p current bound : ℕ) (nodes : List (ℕ × ℕ)) (s : Machine)
      → prev ≢ 0
      → fresh ≢ 0
      → ((j : ℕ) → (s.memory fresh).location ≢ slot_at j)
      → (s.memory prev).location ≡ slot_at p
      → slot < p
      → Chain s.memory current nodes
      → Descending slot nodes
      → Linked prev p nodes s (fresh, link s slot fresh prev current)
  unfolding link
  stop-Linked fuel prev p current bound nodes s z f new l above c d =
      let e0 : (prev == 0) ≡ false = ground arith in
      let apart : (b j : ℕ) → (s.memory b).location ≡ slot_at j → (b == fresh) ≡ false =
        λ b j k. not_fresh s new b j k in
      let e1 = apart prev p l in
      let e2 : (fresh == prev) ≡ false = ground arith in
      let m : Memory =
        write
          (write s.memory fresh (record { next = current; closed = nil; location = slot_at slot }))
          prev (record (s.memory prev) { next = fresh }) in
      let same : (b j : ℕ)
          → (b == prev) ≡ false
          → (s.memory b).location ≡ slot_at j
          → m b ≡ s.memory b =
        λ b j x k. rw (x, apart b j k) in
      let low : Chain m current nodes =
        Chain-agree s.memory m current nodes slot d
          (λ b j h k. same b j (other_slot s.memory b prev j p (omega arith) k l) k) c in
      let e3 : (prev == prev) ≡ true = ground arith in
      let e4 : (fresh == fresh) ≡ true = ground arith in
      let nexts : (m prev).next ≡ fresh = rw e3 in
      let at_fresh : m fresh ≡ record { next = current; closed = nil; location = slot_at slot } =
        rw (e2, e4) in
      rw (link, e0, e1)
        (record {
          chain = subst (Chain m (m prev).next) (sym (inserted-low slot fresh nodes d)) (
            nexts,
            f,
            ap (λ u. u.location) at_fresh,
            subst (λ u. Chain m u.next nodes) (sym at_fresh) low,
          );
          head = refl;
          found = address-low slot fresh nodes d;
          evalstack = refl;
          higher = λ b j h k. same b j (other_slot s.memory b prev j p (omega arith) k l) k;
          location = λ b n. elim (Bool-cases (b == prev)) [
            | inl x ↦ rw x (ap (λ y. (s.memory y).location) (ground arith))
            | inr x ↦ let y : (b == fresh) ≡ false = ground arith in rw (x, y)
          ];
          closed = λ b n. elim (Bool-cases (b == prev)) [
            | inl x ↦ rw x (ap (λ y. (s.memory y).closed) (ground arith))
            | inr x ↦ let y : (b == fresh) ≡ false = ground arith in rw (x, y)
          ];
        })

  found-Linked :
      (prev p current a i : ℕ) (nodes : List (ℕ × ℕ)) (s : Machine)
      → current ≡ a
      → a ≢ 0
      → (s.memory a).location ≡ slot_at i
      → Chain s.memory (s.memory a).next nodes
      → (s.memory prev).next ≡ current
      → ltb slot i ≡ false
      → (i == slot) ≡ true
      → Linked prev p ((a, i) ∷ nodes) s (current, s)
  unfolding inserted address
  found-Linked prev p current a i nodes s e y q c nx u v = record {
    chain = rw (inserted, u, v) (nx ∙ e, y, q, c);
    head = refl;
    found = rw (address, u, v) e;
    evalstack = refl;
    higher = λ b j h k. refl;
    location = λ b n. refl;
    closed = λ b n. refl;
  }

  go-Linked :
      (prev p current a i : ℕ) (nodes : List (ℕ × ℕ)) (s : Machine) (r : ℕ × Machine)
      → current ≡ a
      → a ≢ 0
      → (s.memory a).location ≡ slot_at i
      → (s.memory current).location ≡ slot_at i
      → (s.memory prev).next ≡ current
      → (s.memory prev).location ≡ slot_at p
      → i < p
      → ltb slot i ≡ true
      → ((j : ℕ) → (s.memory fresh).location ≢ slot_at j)
      → Linked current i nodes s r
      → Linked prev p ((a, i) ∷ nodes) s r
  unfolding inserted address
  go-Linked prev p current a i nodes s r e y q place nx l k u new w =
      let other : a ≢ fresh = λ x. new i (ap (λ t. (s.memory t).location) (sym x) ∙ q) in
      record {
        chain =
            rw (inserted, u)
              (
                ap (λ t. t.next) (w.higher prev p k l) ∙ nx ∙ e,
                y,
                w.location a other ∙ q,
                subst (λ t. Chain r.1.memory (r.1.memory t).next (inserted slot fresh nodes)) e
                    w.chain,
              );
        head = w.head;
        found = rw (address, u) w.found;
        evalstack = w.evalstack;
        higher = λ b j h. w.higher b j (omega arith);
        location = w.location;
        closed = w.closed;
      }

  pub from-Linked :
      (fuel prev p current : ℕ) (nodes : List (ℕ × ℕ)) (s : Machine)
      → prev ≢ 0
      → fresh ≢ 0
      → ((j : ℕ) → (s.memory fresh).location ≢ slot_at j)
      → (s.memory prev).location ≡ slot_at p
      → (s.memory prev).next ≡ current
      → slot < p
      → Chain s.memory current nodes
      → Descending p nodes
      → length nodes ≤ fuel
      → Linked prev p nodes s (from fuel s prev current)
  unfolding is_above is_slot
  from-Linked fuel prev p current [] s z f new l nx above c d h =
      let e : (current == 0) ≡ true = ground arith in
      subst (Linked prev p [] s)
        (sym (from-stop fuel s prev current (rw e) ∙ finish-new s prev current (rw e)))
        (stop-Linked fuel prev p current 0 [] s z f new l above c tt)
  from-Linked zero prev p current ((a, i) ∷ nodes) s z f new l nx above c d h = absurd (omega arith)
  from-Linked (suc fuel) prev p current ((a, i) ∷ nodes) s z f new l nx above (e, y, q, c) (k, d)
        h =
      let P = Linked prev p ((a, i) ∷ nodes) s in
      let place : (s.memory current).location ≡ slot_at i = ap (λ x. (s.memory x).location) e ∙ q in
      let some_node : (current == 0) ≡ false = ground arith in
      elim (Bool-cases (ltb slot i)) [
        | inl u ↦
            let rest =
              from-Linked fuel current i (s.memory current).next nodes s (λ x. y (sym e ∙ x)) f new
                place refl (ground arith)
                (subst (λ x. Chain s.memory (s.memory x).next nodes) (sym e) c) d (omega arith) in
            subst P (sym (from-go fuel s prev current (rw (some_node, place) u)))
              (go-Linked prev p current a i nodes s _ e y q place nx l k u new rest)
        | inr u ↦
            let stops = from-stop (suc fuel) s prev current (rw (some_node, place) u) in
            elim (Bool-cases (i == slot)) [
              | inl v ↦
                  subst P (sym (stops ∙ finish-found s prev current (rw (some_node, place) v)))
                    (found-Linked prev p current a i nodes s e y q c nx u v)
              | inr v ↦
                  subst P (sym (stops ∙ finish-new s prev current (rw (some_node, place) v))) (
                    stop-Linked fuel prev p current 0 ((a, i) ∷ nodes) s z f new l above
                      (e, y, q, c) (ground arith, d))
            ]
      ]
