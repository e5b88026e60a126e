-- ===== src/Compiler/Scopes.antt =====
-- Scopes: the locals lie by their depth, and the end of a scope removes its locals and no others.
use cpp_lox.Prelude.{
  ℕ, ◌+◌, ◌-◌, ◌<◌, ◌≤◌, ◌≡◌, refl, sym, ap, ◌∙◌, subst, inl, inr, Bool, true, false, List, [], ◌∷◌,
  ◌++◌, ltb, ◌==◌, length, Bool-cases, arith,
}
use mathlib.Core.List.{append_assoc}
use cpp_lox.OpCode.{to_byte, op_close_upvalue, op_pop_top}
use cpp_lox.Token.{Token}
use cpp_lox.Chunk.Words.{write_simple_op-code}
use cpp_lox.Compiler.{
  Parser, Local, Compiler, emit_opcode, begin_scope, pop_op, pop_locals, end_scope, add_local,
  declare_variable, is_redeclared, max_number_of_local_variables,
}

-- no local is deeper than `depth`, nor than the ones above it
abbrev pub Ordered : ℕ → List Local → Type 0
Ordered depth [] = Unit
Ordered depth (local ∷ rest) = (local.depth ≤ depth) × Ordered local.depth rest

abbrev pub IsScoped : Compiler → Type 0
IsScoped c = Ordered c.scope_depth c.locals

abbrev pub AllDeeper : ℕ → List Local → Type 0
AllDeeper depth [] = Unit
AllDeeper depth (local ∷ rest) = (depth < local.depth) × AllDeeper depth rest

-- the code of the operation that removes a local that is captured, and of one that is not
abbrev pub removal : Bool → ℕ
removal true = to_byte op_close_upvalue
removal false = to_byte op_pop_top

-- the operations that remove the locals, in their order
abbrev pub pop_bytes : List Local → List ℕ
pop_bytes [] = []
pop_bytes (local ∷ rest) = removal local.is_captured ∷ pop_bytes rest

-- `after` is `before` without the locals that are deeper than `depth`
pub record Popped (depth : ℕ) (locals : List Local) (code : List ℕ) (after : Compiler)
    : Type 0 where
  pub popped : List Local
  pub split : locals ≡ popped ++ after.locals
  pub deeper : AllDeeper depth popped
  pub ordered : Ordered depth after.locals
  pub emitted : after.chunk.code ≡ code ++ pop_bytes popped
  pub same_depth : after.scope_depth ≡ depth

pop_op-removal : (local : Local) → to_byte (pop_op local) ≡ removal local.is_captured
unfolding pop_op
pop_op-removal local = elim (Bool-cases local.is_captured) [ inl e ↦ rw e refl | inr e ↦ rw e refl ]

end_of_list : (code : List ℕ) → code ≡ code ++ []
end_of_list [] = refl
end_of_list (b ∷ code) = ap (λ c. b ∷ c) (end_of_list code)

Ordered-weaken : (a b : ℕ) (locals : List Local) → a ≤ b → Ordered a locals → Ordered b locals
Ordered-weaken a b [] h o = tt
Ordered-weaken a b (local ∷ rest) h (low, o) = (omega arith, o)

pop_locals-Popped :
    (bound depth : ℕ) (parser : Parser) (locals : List Local) (c : Compiler)
    → Ordered bound locals
    → c.scope_depth ≡ depth
    → Popped depth locals c.chunk.code (pop_locals depth parser locals c)
unfolding pop_locals emit_opcode
pop_locals-Popped bound depth parser [] c o e = record {
  popped = [];
  split = refl;
  deeper = tt;
  ordered = tt;
  emitted = end_of_list c.chunk.code;
  same_depth = e;
}
pop_locals-Popped bound depth parser (local ∷ rest) c (low, o) e =
    elim (Bool-cases (ltb depth local.depth)) [
      | inl deep ↦
          let r =
            pop_locals-Popped local.depth depth parser rest (emit_opcode (pop_op local) parser c) o
              e in
          rw deep (record {
            popped = local ∷ r.popped;
            split = ap (λ locals. local ∷ locals) r.split;
            deeper = (ground arith, r.deeper);
            ordered = r.ordered;
            emitted =
                r.emitted
                ∙ ap (λ code. code ++ pop_bytes r.popped)
                    (write_simple_op-code c.chunk (pop_op local) parser.line)
                ∙ append_assoc c.chunk.code (to_byte (pop_op local) ∷ []) (pop_bytes r.popped)
                ∙ ap (λ b. c.chunk.code ++ b ∷ pop_bytes r.popped) (pop_op-removal local);
            same_depth = r.same_depth;
          })
      | inr kept ↦ rw kept (record {
        popped = [];
        split = refl;
        deeper = tt;
        ordered = (ground arith, o);
        emitted = end_of_list c.chunk.code;
        same_depth = e;
      })
    ]

end_locals-Popped :
    (parser : Parser) (c : Compiler)
    → IsScoped c
    → Popped (c.scope_depth - 1) c.locals c.chunk.code (end_scope parser c)
unfolding end_scope
end_locals-Popped parser c o =
    pop_locals-Popped c.scope_depth (c.scope_depth - 1) parser c.locals
      (record c { scope_depth = c.scope_depth - 1 }) o refl

-- Where a scope has begun and the locals lie by their depth, the end of the scope leaves the depth of
-- the scope around it, removes the locals that are deeper than that and no others, and emits one
-- operation for each, from the last one on: CLOSE_UPVALUE for a local that is captured, and POP_TOP
-- for any other. The locals that stay lie by their depth.
pub end_scope-Popped :
    (parser : Parser) (c : Compiler) (outer : ℕ)
    → c.scope_depth ≡ outer + 1
    → IsScoped c
    → Popped outer c.locals c.chunk.code (end_scope parser c)
end_scope-Popped parser c outer e o =
    let same : c.scope_depth - 1 ≡ outer = omega arith in
    subst (λ depth. Popped depth c.locals c.chunk.code (end_scope parser c)) same
      (end_locals-Popped parser c o)

begin_scope-IsScoped : (c : Compiler) → IsScoped c → IsScoped (begin_scope c)
unfolding begin_scope
begin_scope-IsScoped c o = Ordered-weaken c.scope_depth (c.scope_depth + 1) c.locals (omega arith) o

declare_variable-IsScoped :
    (token : Token) (is_constant : Bool) (parser : Parser) (c : Compiler)
    → IsScoped c
    → IsScoped (declare_variable token is_constant parser c).1
unfolding declare_variable add_local
declare_variable-IsScoped token is_constant parser c o = elim (Bool-cases (c.scope_depth == 0)) [
  | inl x ↦ rw x o
  | inr x ↦ elim (Bool-cases (is_redeclared token c.scope_depth c.locals)) [
    | inl y ↦ rw (x, y) o
    | inr y ↦ elim (Bool-cases (length c.locals == max_number_of_local_variables)) [
      | inl z ↦ rw (x, y, z) o
      | inr z ↦ rw (x, y, z) (omega arith, o)
    ]
  ]
]

-- The start of a scope, the end of one and a declaration keep the order of the locals by their depth.
pub scope-IsScoped :
    (token : Token) (is_constant : Bool) (parser : Parser) (c : Compiler)
    → IsScoped c
    → IsScoped (begin_scope c)
      × IsScoped (end_scope parser c)
      × IsScoped (declare_variable token is_constant parser c).1
scope-IsScoped token is_constant parser c o =
    let r = end_locals-Popped parser c o in
    (
      begin_scope-IsScoped c o,
      subst (λ depth. Ordered depth (end_scope parser c).locals) (sym r.same_depth) r.ordered,
      declare_variable-IsScoped token is_constant parser c o,
    )
