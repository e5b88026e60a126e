-- ===== src/Compiler/Upvalues.antt =====
-- Which variable an upvalue stands for, through the enclosing functions.
use cpp_lox.Prelude.{
  bind-some, none-if-some, some_eq, ℕ, zero, suc, ◌+◌, ◌-◌, ◌≤◌, ◌≡◌, refl, sym, ap, ◌∙◌, ◌⊎◌, inl,
  inr, subst, Bool, true, false, Option, none, some, List, [], ◌∷◌, ◌++◌, ltb, ◌==◌, length,
  get_elem?, Bool-cases, Option-cases, length-append, arith,
}
use cpp_lox.Token.{Token}
use cpp_lox.Execute.Values.{same_bytes}
use cpp_lox.Compiler.{
  Parser, Local, UpvalueEntry, Compiler, Resolution, resolve_local, local_at, is_const_at,
  mark_captured, same_entry, find_upvalue, push_upvalue, add_upvalue, capture_local, pass_on,
  upvalue_for, resolve_upvalue,
}
use cpp_lox.Compiler.Locals.{resolve_local-Looked}

-- the entry number `k`
abbrev pub Entry : Compiler → ℕ → ℕ → Bool → Type 0
Entry c k index is_local =
    get_elem? c.upvalues k ≡ some (record { index = index; is_local = is_local })

-- a captured local with the name
abbrev pub Captured : List Local → ℕ → Token → Bool → Type 0
Captured locals index name is_const =
    (local : Local) × (local_at index locals ≡ some local)
    × (same_bytes local.name.lexeme name.lexeme ≡ true)
    × (local.is_captured ≡ true)
    × (local.is_const ≡ is_const)

-- Upvalue `k` of `c` stands for a variable of the name: a captured local of the function around it, or
-- what an upvalue of that function stands for.
unfoldable pub Denotes : Compiler → List Compiler → ℕ → Token → Bool → Type 0
Denotes c [] k name is_const = false ≡ true
Denotes c (enclosing ∷ rest) k name is_const =
    (index : ℕ) × ((Entry c k index true × Captured enclosing.locals index name is_const)
      ⊎ (Entry c k index false × Denotes enclosing rest index name is_const))

-- the entries of `c` are entries of `after`, at their places
abbrev pub Extended : Compiler → Compiler → Type 0
Extended c after =
    (k : ℕ) (u : UpvalueEntry)
    → get_elem? c.upvalues k ≡ some u
    → get_elem? after.upvalues k ≡ some u

pub record Added (index : ℕ) (is_local : Bool) (c : Compiler) (k : ℕ) (after : Compiler)
    : Type 0 where
  pub entry : Entry after k index is_local
  pub extended : Extended c after
  pub locals : after.locals ≡ c.locals

get_elem?-before {ℓ} :
    {A : Type ℓ} (xs ys : List A) (k : ℕ) (a : A)
    → get_elem? xs k ≡ some a
    → get_elem? (xs ++ ys) k ≡ some a
get_elem?-before [] ys k a h = cc
get_elem?-before (x ∷ xs) ys zero a h = h
get_elem?-before (x ∷ xs) ys (suc k) a h = get_elem?-before xs ys k a h

get_elem?-last {ℓ} :
    {A : Type ℓ} (xs : List A) (a : A) → get_elem? (xs ++ a ∷ []) (length xs) ≡ some a
get_elem?-last [] a = refl
get_elem?-last (x ∷ xs) a = get_elem?-last xs a

entry-eq :
    (u : UpvalueEntry) (index : ℕ) (is_local : Bool)
    → u.index ≡ index
    → u.is_local ≡ is_local
    → u ≡ record { index = index; is_local = is_local }
entry-eq u index is_local e f =
    ap (λ i. record { index = i; is_local = u.is_local }) e
    ∙ ap (λ b. record { index = index; is_local = b }) f

same_entry-eq :
    (u : UpvalueEntry) (index : ℕ) (is_local : Bool)
    → same_entry u index is_local ≡ true
    → u ≡ record { index = index; is_local = is_local }
unfolding same_entry
same_entry-eq u index true h =
    let at : u.index ≡ index = ground arith in
    let kind : u.is_local ≡ true = ground arith in entry-eq u index true at kind
same_entry-eq u index false h =
    let at : u.index ≡ index = ground arith in
    let kind : u.is_local ≡ false = ground arith in entry-eq u index false at kind

-- the entry that the loop finds, behind `idx` others
find_upvalue-Entry :
    (index : ℕ) (is_local : Bool) (idx k : ℕ) (entries : List UpvalueEntry)
    → find_upvalue index is_local idx entries ≡ some k
    → (idx ≤ k)
      × (get_elem? entries (k - idx) ≡ some (record { index = index; is_local = is_local }))
unfolding find_upvalue
find_upvalue-Entry index is_local idx k [] h = cc
find_upvalue-Entry index is_local idx k (u ∷ rest) h =
    elim (Bool-cases (same_entry u index is_local)) [
      | inl same ↦
          let e = some_eq idx k (rw same at h) in
          let here : k - idx ≡ 0 = omega arith in
          (
            omega arith,
            ap (λ n. get_elem? (u ∷ rest) n) here ∙ ap some (same_entry-eq u index is_local same),
          )
      | inr other ↦
          let (low, found) = find_upvalue-Entry index is_local (idx + 1) k rest (rw other at h) in
          let next : k - idx ≡ suc (k - (idx + 1)) = omega arith in
          (omega arith, ap (λ n. get_elem? (u ∷ rest) n) next ∙ found)
    ]

add_upvalue-Added :
    (index : ℕ) (is_local : Bool) (c : Compiler) (r : ℕ × Compiler)
    → add_upvalue index is_local c ≡ some r
    → Added index is_local c r.0 r.1
unfolding add_upvalue
add_upvalue-Added index is_local c r h =
    let (room, e) = none-if-some (ltb 65535 (length c.upvalues)) _ r h in
    let e' = some_eq _ r e in
    elim (Option-cases (find_upvalue index is_local 0 c.upvalues)) [
      | inl new ↦
          subst (λ (q : ℕ × Compiler). Added index is_local c q.0 q.1)
            (ap (push_upvalue index is_local c) (sym new) ∙ e')
            (record {
              entry =
                  let u : UpvalueEntry = record { index = index; is_local = is_local } in
                  let at : length (c.upvalues ++ u ∷ []) - 1 ≡ length c.upvalues =
                    omega (arith, length-append c.upvalues (u ∷ [])) in
                  ap (get_elem? (c.upvalues ++ u ∷ [])) at ∙ get_elem?-last c.upvalues u;
              extended = λ k u known. get_elem?-before c.upvalues _ k u known;
              locals = refl;
            })
      | inr (idx, old) ↦
          subst (λ (q : ℕ × Compiler). Added index is_local c q.0 q.1)
            (ap (push_upvalue index is_local c) (sym old) ∙ e')
            (record {
              entry =
                  let (low, found) = find_upvalue-Entry index is_local 0 idx c.upvalues old in
                  let at : idx ≡ idx - 0 = omega arith in ap (get_elem? c.upvalues) at ∙ found;
              extended = λ k u known. known;
              locals = refl;
            })
    ]

length-mark_captured :
    (index : ℕ) (locals : List Local) → length (mark_captured index locals) ≡ length locals
unfolding mark_captured
length-mark_captured index [] = refl
length-mark_captured index (local ∷ rest) = ap suc (length-mark_captured index rest)

capture_marked :
    (name : Token) (locals : List Local) (index : ℕ) (local : Local)
    → local_at index locals ≡ some local
    → same_bytes local.name.lexeme name.lexeme ≡ true
    → Captured (mark_captured index locals) index name (is_const_at index locals)
unfolding local_at mark_captured
capture_marked name [] index local h named = cc
capture_marked name (top ∷ rest) index local h named =
    let width = length-mark_captured index rest in
    elim (Bool-cases (length rest == index)) [
      | inl here ↦
          let same = some_eq top local (rw here at h) in
          (
            record top { is_captured = true },
            rw (width, here),
            subst (λ (l : Local). same_bytes l.name.lexeme name.lexeme ≡ true) (sym same) named,
            refl,
            rw here,
          )
      | inr there ↦
          let (found, at, is_named, captured, const) =
            capture_marked name rest index local (rw there at h) named in
          (found, rw (width, there) at, is_named, captured, rw there const)
    ]

-- What a resolution says of the function that it is for.
abbrev pub Resolved : Token → Compiler → Resolution → Type 0
Resolved name c (none, parser, after, enclosing) = after ≡ c
Resolved name c (some (k, is_const), parser, after, enclosing) =
    Extended c after × (after.locals ≡ c.locals) × Denotes after enclosing k name is_const

capture_local-Resolved :
    (name : Token) (index : ℕ) (parser : Parser) (c enclosing : Compiler) (rest : List Compiler)
    (local : Local) (r : Resolution)
    → local_at index enclosing.locals ≡ some local
    → same_bytes local.name.lexeme name.lexeme ≡ true
    → capture_local index parser c enclosing rest ≡ some r
    → Resolved name c r
unfolding capture_local Denotes
capture_local-Resolved name index parser c enclosing rest local r at named h =
    let ((k, after), run, e) = bind-some (add_upvalue index true c) _ r h in
    let added = add_upvalue-Added index true c (k, after) run in
    subst (Resolved name c) (some_eq _ r e) (
      added.extended,
      added.locals,
      (index, inl (added.entry, capture_marked name enclosing.locals index local at named)),
    )

pass_on-Resolved :
    (name : Token) (c enclosing : Compiler) (deeper r : Resolution)
    → Resolved name enclosing deeper
    → pass_on c deeper ≡ some r
    → Resolved name c r
unfolding pass_on Denotes
pass_on-Resolved name c enclosing (none, parser, outer, rest) r d h =
    subst (Resolved name c) (some_eq _ r h) refl
pass_on-Resolved name c enclosing (some (upvalue, is_const), parser, outer, rest) r (x, y, d) h =
    let ((k, after), run, e) = bind-some (add_upvalue upvalue false c) _ r h in
    let added = add_upvalue-Added upvalue false c (k, after) run in
    subst (Resolved name c) (some_eq _ r e)
      (added.extended, added.locals, (upvalue, inr (added.entry, d)))

upvalue_for-Resolved :
    (name : Token) (local : Option ℕ × Parser) (c enclosing : Compiler) (rest : List Compiler)
    (deeper : Option Resolution) (r : Resolution)
    → ((index : ℕ)
        → local.0 ≡ some index
        → (l : Local) × (local_at index enclosing.locals ≡ some l)
          × (same_bytes l.name.lexeme name.lexeme ≡ true))
    → ((d : Resolution) → deeper ≡ some d → Resolved name enclosing d)
    → upvalue_for local c enclosing rest deeper ≡ some r
    → Resolved name c r
upvalue_for-Resolved name (some index, parser) c enclosing rest deeper r found down h =
    let (l, at, named) = found index refl in
    capture_local-Resolved name index parser c enclosing rest l r at named h
upvalue_for-Resolved name (none, parser) c enclosing rest deeper r found down h =
    let (d, run, e) = bind-some deeper (pass_on c) r h in
    pass_on-Resolved name c enclosing d r (down d run) e

-- the local that a lookup finds
looked-local :
    (name : Token) (parser : Parser) (locals : List Local) (index : ℕ)
    → (resolve_local name parser locals).0 ≡ some index
    → (l : Local) × (local_at index locals ≡ some l) × (same_bytes l.name.lexeme name.lexeme ≡ true)
looked-local name parser locals index h = elim (resolve_local-Looked name parser locals) [
  | inl (all, r) ↦ cc (h, ap (λ (q : Option ℕ × Parser). q.0) r)
  | inr (l, below, i, inl (early, r)) ↦ cc (h, ap (λ (q : Option ℕ × Parser). q.0) r)
  | inr (l, below, i, inr (ready, r)) ↦
      let same = some_eq (length below) index (sym (ap (λ (q : Option ℕ × Parser). q.0) r) ∙ h) in
      (l, subst (λ k. local_at k locals ≡ some l) same i.at, i.named)
]

-- A name that is looked up in the enclosing functions and found gives an upvalue that stands for a
-- variable of that name: through the entries of the functions on the way it leads to a local with the
-- name, which is marked as captured, and whose being constant is what the lookup says. The entries
-- that the function had keep their places, and its locals stay. Where nothing is found the function is
-- unchanged.
pub resolve_upvalue-Resolved :
    (name : Token) (parser : Parser) (c : Compiler) (enclosing : List Compiler) (r : Resolution)
    → resolve_upvalue name parser c enclosing ≡ some r
    → Resolved name c r
unfolding resolve_upvalue
resolve_upvalue-Resolved name parser c [] r h = subst (Resolved name c) (some_eq _ r h) refl
resolve_upvalue-Resolved name parser c (enclosing ∷ rest) r h =
    let local = resolve_local name parser enclosing.locals in
    upvalue_for-Resolved name local c enclosing rest (resolve_upvalue name local.1 enclosing rest) r
      (looked-local name parser enclosing.locals)
      (λ d run. resolve_upvalue-Resolved name local.1 enclosing rest d run) h
