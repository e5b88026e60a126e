-- ===== src/Gc/RootSet.antt =====
-- The pointers among the roots; `mark_roots` marks them.

use cpp_lox.Prelude.{
  ℕ, ◌<◌, ◌≢◌, ◌==◌, arith, subst, ◌≡◌, refl, ap, ◌∙◌, sym, inl, inr, Bool, true, false, Option,
  none, some, List, [], ◌∷◌, ◌++◌, if◌then◌else◌, Bool-cases,
}
use cpp_lox.HashMap.{Slot, is_filled}
use cpp_lox.Object.{Object, upvalue}
use cpp_lox.Gc.{
  Memory, Marking, Globals, VmRoots, Roots, mark_global_variables, mark_compiler_roots,
  mark_vm_roots, is_live, mark_live, mark_roots,
}
use cpp_lox.Gc.Pointers.{
  count, count-append, values_pointers, mark_all, mark_all-append, mark_values_lem, mark_loop,
}

unfoldable pub key_pointers : List (Slot ℕ ℕ) → List ℕ
unfolding is_filled
key_pointers [] = []
key_pointers (s ∷ slots) = (if is_filled s.state then s.key ∷ [] else []) ++ key_pointers slots

unfoldable pub globals_pointers : Globals → List ℕ
globals_pointers g = key_pointers g.global_names.slots ++ values_pointers g.values

-- The globals are read from a compiler only where there is no machine.
unfoldable pub compiler_pointers : List ℕ → Globals → Bool → List ℕ
compiler_pointers [] context is_vm_live = []
compiler_pointers (c ∷ cs) context is_vm_live =
    (if is_vm_live then [] else globals_pointers context) ++ c ∷ cs

unfoldable pub vm_pointers : Option VmRoots → List ℕ
vm_pointers none = []
vm_pointers (some vm) =
    values_pointers vm.evalstack
    ++ vm.frames
    ++ vm.open_upvalues
    ++ globals_pointers vm.context
    ++ vm.constant_string_init ∷ []

unfoldable pub root_pointers : Roots → List ℕ
root_pointers r =
    values_pointers r.temp_stash
    ++ compiler_pointers r.compilers r.compiler_context (is_live r.vm)
    ++ vm_pointers r.vm
    ++ r.never_delete_objects

-- `next` of an upvalue
abbrev pub next_of : Object → ℕ
next_of (upvalue next closed) = next
next_of _ = 0

-- the open upvalues, as the loop over `next` meets them from the head of the list on
abbrev pub opens : Option VmRoots → List ℕ
opens none = []
opens (some vm) = vm.open_upvalues

abbrev pub head : List ℕ → ℕ
head [] = 0
head (u ∷ rest) = u

-- the `next` of each is the following one, and that of the last is the null pointer
abbrev pub Linked : Memory → List ℕ → Type 0
Linked memory [] = Unit
Linked memory (u ∷ rest) = (next_of (memory u) ≡ head rest) × Linked memory rest

head-found : (us : List ℕ) → head us ≢ 0 → 0 < count (head us) us
unfolding count
head-found [] n = absurd (n refl)
head-found (u ∷ rest) n = ground arith

-- the `next` of an upvalue of the list is in the list
pub Linked-next :
    (memory : Memory) (us : List ℕ) (x : ℕ)
    → Linked memory us
    → 0 < count x us
    → next_of (memory x) ≢ 0
    → 0 < count (next_of (memory x)) us
unfolding count
Linked-next memory [] x linked h n = absurd (omega arith)
Linked-next memory (u ∷ rest) x (first, linked) h n = elim (Bool-cases (x == u)) [
  | inl e ↦
      let same : x ≡ u = ground arith in
      let following : next_of (memory x) ≡ head rest = ap (λ y. next_of (memory y)) same ∙ first in
      let found : 0 < count (next_of (memory x)) rest =
        subst (λ y. 0 < count y rest) (sym following) (head-found rest λ z. n (following ∙ z)) in
      ground (arith, found)
  | inr e ↦ let later = Linked-next memory rest x linked (ground arith) n in ground (arith, later)
]

pub opens-vm_pointers :
    (vm : Option VmRoots) (x : ℕ) → 0 < count x (opens vm) → 0 < count x (vm_pointers vm)
unfolding vm_pointers count
opens-vm_pointers none x h = h
opens-vm_pointers (some vm) x h =
    let framed = values_pointers vm.evalstack ++ vm.frames in
    let opened = framed ++ vm.open_upvalues in
    let named = opened ++ globals_pointers vm.context in
    omega (
      arith,
      h,
      count-append x framed vm.open_upvalues,
      count-append x opened (globals_pointers vm.context),
      count-append x named (vm.constant_string_init ∷ []),
    )

-- the open upvalues are roots
pub opens-root_pointers :
    (r : Roots) (x : ℕ) → 0 < count x (opens r.vm) → 0 < count x (root_pointers r)
unfolding root_pointers
opens-root_pointers r x h =
    let before =
      values_pointers r.temp_stash
      ++ compiler_pointers r.compilers r.compiler_context (is_live r.vm) in
    omega (
      arith,
      opens-vm_pointers r.vm x h,
      count-append x before (vm_pointers r.vm),
      count-append x (before ++ vm_pointers r.vm) r.never_delete_objects,
    )

both :
    (s t r : Marking) (xs ys : List ℕ)
    → t ≡ mark_all s xs
    → r ≡ mark_all t ys
    → r ≡ mark_all s (xs ++ ys)
both s t r xs ys h k = k ∙ ap (λ q. mark_all q ys) h ∙ sym (mark_all-append s xs ys)

mark_global_variables_lem :
    (s : Marking) (g : Globals) → mark_global_variables s g ≡ mark_all s (globals_pointers g)
unfolding mark_global_variables globals_pointers key_pointers is_filled
mark_global_variables_lem s g =
    both s _ _ (key_pointers g.global_names.slots) (values_pointers g.values)
      (mark_loop _ (λ x. if is_filled x.state then x.key ∷ [] else []) key_pointers
        (λ r x. elim (Bool-cases (is_filled x.state)) [ inl e ↦ rw e refl | inr e ↦ rw e refl ])
        refl (λ x xs. refl) s g.global_names.slots)
      (mark_values_lem _ g.values)

mark_compiler_roots_lem :
    (s : Marking) (cs : List ℕ) (g : Globals) (live : Bool)
    → mark_compiler_roots s cs g live ≡ mark_all s (compiler_pointers cs g live)
unfolding mark_compiler_roots compiler_pointers
mark_compiler_roots_lem s [] g live = refl
mark_compiler_roots_lem s (c ∷ cs) g true = refl
mark_compiler_roots_lem s (c ∷ cs) g false =
    both s _ _ (globals_pointers g) (c ∷ cs) (mark_global_variables_lem s g) refl

mark_live_lem : (s : Marking) (vm : Option VmRoots) → mark_live s vm ≡ mark_all s (vm_pointers vm)
unfolding mark_vm_roots vm_pointers
mark_live_lem s none = refl
mark_live_lem s (some vm) =
    let values = values_pointers vm.evalstack in
    let framed = values ++ vm.frames in
    let opened = framed ++ vm.open_upvalues in
    let named = opened ++ globals_pointers vm.context in
    both s _ _ named (vm.constant_string_init ∷ [])
      (both s _ _ opened (globals_pointers vm.context)
        (both s _ _ framed vm.open_upvalues
          (both s _ _ values vm.frames (mark_values_lem s vm.evalstack) refl) refl)
        (mark_global_variables_lem _ vm.context))
      refl

pub mark_roots_lem : (s : Marking) (r : Roots) → mark_roots s r ≡ mark_all s (root_pointers r)
unfolding mark_roots root_pointers
mark_roots_lem s r =
    let stashed = values_pointers r.temp_stash in
    let compilers = compiler_pointers r.compilers r.compiler_context (is_live r.vm) in
    both s _ _ (stashed ++ compilers ++ vm_pointers r.vm) r.never_delete_objects
      (both s _ _ (stashed ++ compilers) (vm_pointers r.vm)
        (both s _ _ stashed compilers (mark_values_lem s r.temp_stash)
          (mark_compiler_roots_lem _ r.compilers r.compiler_context (is_live r.vm)))
        (mark_live_lem _ r.vm))
      refl
