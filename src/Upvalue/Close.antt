-- ===== src/Upvalue/Close.antt =====
-- `close_upvalues` closes the upvalues from a slot up, and no read of an upvalue changes.
use cpp_lox.Prelude.{
  ℕ, zero, suc, ◌<◌, ◌≤◌, ◌≡◌, refl, ap, ◌∙◌, subst, sym, inl, inr, true, false, ◌||◌, List, [],
  ◌∷◌, ltb, leb, ◌==◌, if◌then◌else◌, arith, length, get_or, Bool-cases,
}
use cpp_lox.Object.{Value, nil}
use cpp_lox.Upvalue.{
  own, Memory, slot_at, Machine, deref, is_above, is_slot, close_first, close_upvalues,
}
use cpp_lox.Upvalue.Chain.{Chain, Descending, Chain-agree, write-below}

-- the nodes below a slot
unfoldable pub below : ℕ → List (ℕ × ℕ) → List (ℕ × ℕ)
below last [] = []
below last ((a, i) ∷ nodes) = if leb last i then below last nodes else (a, i) ∷ nodes

-- the nodes from a slot up
unfoldable pub above : ℕ → List (ℕ × ℕ) → List (ℕ × ℕ)
above last [] = []
above last ((a, i) ∷ nodes) = if leb last i then (a, i) ∷ above last nodes else []

-- the upvalues have left the stack, each with the value of its slot
abbrev pub Released : List Value → Memory → List (ℕ × ℕ) → Type 0
Released evalstack memory [] = Unit
Released evalstack memory ((a, i) ∷ nodes) =
    ((memory a).location ≡ own)
    × ((memory a).closed ≡ get_or evalstack i nil)
    × Released evalstack memory nodes

above-nil : (last : ℕ) → above last [] ≡ []
unfolding above
above-nil last = refl

above-keep :
    (last a i : ℕ) (nodes : List (ℕ × ℕ))
    → leb last i ≡ true
    → above last ((a, i) ∷ nodes) ≡ (a, i) ∷ above last nodes
unfolding above
above-keep last a i nodes e = rw e

above-stop :
    (last a i : ℕ) (nodes : List (ℕ × ℕ)) → leb last i ≡ false → above last ((a, i) ∷ nodes) ≡ []
unfolding above
above-stop last a i nodes e = rw e

below-nil : (last : ℕ) → below last [] ≡ []
unfolding below
below-nil last = refl

below-skip :
    (last a i : ℕ) (nodes : List (ℕ × ℕ))
    → leb last i ≡ true
    → below last ((a, i) ∷ nodes) ≡ below last nodes
unfolding below
below-skip last a i nodes e = rw e

below-stop :
    (last a i : ℕ) (nodes : List (ℕ × ℕ))
    → leb last i ≡ false
    → below last ((a, i) ∷ nodes) ≡ (a, i) ∷ nodes
unfolding below
below-stop last a i nodes e = rw e

-- `t` is `s` after the upvalues of the slots from `last` up were closed.
pub record Closed (last : ℕ) (nodes : List (ℕ × ℕ)) (s t : Machine) : Type 0 where
  pub chain : Chain t.memory t.open_upvalues (below last nodes)
  pub lower : Descending last (below last nodes)
  pub evalstack : t.evalstack ≡ s.evalstack
  pub released : Released s.evalstack t.memory (above last nodes)
  pub owned : (b : ℕ) → (s.memory b).location ≡ own → t.memory b ≡ s.memory b
  pub reads : (b : ℕ) → deref t (t.memory b) ≡ deref s (s.memory b)
  pub kept : (b i : ℕ) → i < last → (s.memory b).location ≡ slot_at i → t.memory b ≡ s.memory b

close_first-reads :
    (s : Machine) (b : ℕ) → deref (close_first s) ((close_first s).memory b) ≡ deref s (s.memory b)
unfolding close_first deref
close_first-reads s b = elim (Bool-cases (b == s.open_upvalues)) [
  | inl e ↦ rw e (ap (λ x. deref s (s.memory x)) (ground arith))
  | inr e ↦ rw e
]

close_upvalues-none :
    (fuel last : ℕ) (s : Machine) → s.open_upvalues ≡ 0 → close_upvalues fuel last s ≡ s
unfolding close_upvalues
close_upvalues-none zero last s e = refl
close_upvalues-none (suc fuel) last s e =
    let z : (s.open_upvalues == 0) ≡ true = ground arith in rw (close_upvalues, z)

slot_is_not_own : (i : ℕ) → slot_at i ≡ own → ⊥
slot_is_not_own i h = cc h

-- closing the first leaves the closed ones alone, and closes it with the value of its slot
close_first-owned :
    (s : Machine) (i b : ℕ)
    → (s.memory s.open_upvalues).location ≡ slot_at i
    → (s.memory b).location ≡ own
    → (close_first s).memory b ≡ s.memory b
unfolding close_first
close_first-owned s i b place h = elim (Bool-cases (b == s.open_upvalues)) [
  | inl e ↦
      let same : b ≡ s.open_upvalues = ground arith in
      absurd (slot_is_not_own i (sym place ∙ ap (λ x. (s.memory x).location) (sym same) ∙ h))
  | inr e ↦ rw e
]

close_first-released :
    (s : Machine) (a i : ℕ)
    → s.open_upvalues ≡ a
    → (s.memory s.open_upvalues).location ≡ slot_at i
    → (((close_first s).memory a).location ≡ own)
      × (((close_first s).memory a).closed ≡ get_or s.evalstack i nil)
unfolding close_first deref
close_first-released s a i e place =
    let same : (a == s.open_upvalues) ≡ true = ground arith in (rw same, rw (same, place))

-- On a chain of open upvalues and with fuel for each, the ones from `last` up leave the list and the
-- stack, each with the value of its slot as its own, and the others stay open; every upvalue reads as
-- before, and neither those of lower slots nor those that were closed before are written.
pub close_upvalues-Closed :
    (fuel last bound : ℕ) (nodes : List (ℕ × ℕ)) (s : Machine)
    → Chain s.memory s.open_upvalues nodes
    → Descending bound nodes
    → length nodes ≤ fuel
    → Closed last nodes s (close_upvalues fuel last s)
unfolding close_upvalues close_first is_above is_slot
close_upvalues-Closed fuel last bound [] s c d h = rw (close_upvalues-none fuel last s c) (record {
  chain = subst (Chain s.memory s.open_upvalues) (sym (below-nil last)) c;
  lower = subst (Descending last) (sym (below-nil last)) tt;
  evalstack = refl;
  released = subst (Released s.evalstack s.memory) (sym (above-nil last)) tt;
  owned = λ b o. refl;
  reads = λ b. refl;
  kept = λ b i k l. refl;
})
close_upvalues-Closed zero last bound ((a, i) ∷ nodes) s c d h = absurd (omega arith)
close_upvalues-Closed (suc fuel) last bound ((a, i) ∷ nodes) s (e, z, l, c) (k, d) h =
    let place : (s.memory s.open_upvalues).location ≡ slot_at i =
      ap (λ x. (s.memory x).location) e ∙ l in
    let some_open : (s.open_upvalues == 0) ≡ false = ground arith in
    elim (Bool-cases (leb last i)) [
      | inr n ↦
          let stop : (ltb last i || (i == last)) ≡ false = ground arith in
          let same = below-stop last a i nodes n in
          rw (close_upvalues, some_open, place, stop)
            (record {
              chain = subst (Chain s.memory s.open_upvalues) (sym same) (e, z, l, c);
              lower = subst (Descending last) (sym same) (ground arith, d);
              evalstack = refl;
              released =
                  subst (Released s.evalstack s.memory) (sym (above-stop last a i nodes n)) tt;
              owned = λ b o. refl;
              reads = λ b. refl;
              kept = λ b j m o. refl;
            })
      | inl y ↦
          let go : (ltb last i || (i == last)) ≡ true = ground arith in
          let t = close_first s in
          let under : (b j : ℕ)
              → j < i
              → (s.memory b).location ≡ slot_at j
              → t.memory b ≡ s.memory b =
            λ b j. write-below s.memory s.open_upvalues i _ b j place in
          let c' : Chain s.memory (s.memory s.open_upvalues).next nodes =
            subst (λ x. Chain s.memory (s.memory x).next nodes) (sym e) c in
          let rest =
            close_upvalues-Closed fuel last i nodes t
              (Chain-agree s.memory t.memory _ nodes i d under c') d (omega arith) in
          let skip = below-skip last a i nodes y in
          rw (close_upvalues, some_open, place, go)
            (record {
              chain =
                  subst
                    (Chain (close_upvalues fuel last t).memory
                      (close_upvalues fuel last t).open_upvalues)
                    (sym skip) rest.chain;
              lower = subst (Descending last) (sym skip) rest.lower;
              evalstack = rest.evalstack;
              released =
                  let (place_own, value) = close_first-released s a i e place in
                  let last_memory = rest.owned a place_own in
                  subst (Released s.evalstack (close_upvalues fuel last t).memory)
                    (sym (above-keep last a i nodes y))
                    (
                      ap (λ u. u.location) last_memory ∙ place_own,
                      ap (λ u. u.closed) last_memory ∙ value,
                      rest.released,
                    );
              owned = λ b o.
                  let first = close_first-owned s i b place o in
                  rest.owned b (ap (λ u. u.location) first ∙ o) ∙ first;
              reads = λ b. rest.reads b ∙ close_first-reads s b;
              kept = λ b j m o.
                  let same = under b j (ground arith) o in
                  rest.kept b j m (ap (λ v. v.location) same ∙ o) ∙ same;
            })
    ]
