-- ===== src/Compiler/Tests.antt =====
-- Three nested functions, the outermost of which has a local `x`.
use cpp_lox.Prelude.{
  inl, inr, ap, ℕ, ◌+◌, ◌-◌, ◌≡◌, ◌==◌, refl, true, false, some, List, [], ◌∷◌, length, get_or,
  arith, none,
}
use cpp_lox.Token.{Token, identifier_token, no_error}
use cpp_lox.Chunk.{read_uint16_le}
use cpp_lox.Execute.Values.{same_bytes}
use cpp_lox.Compiler.{report_error, mark_initialized}
use cpp_lox.Compiler.{
  Parser, Local, Compiler, Resolution, begin_scope, end_scope, declare_variable, patch_jump,
  emit_jump_back, resolve_local, resolve_upvalue, add_upvalue, find_upvalue, capture_local, pass_on,
  mark_captured,
}
use cpp_lox.Compiler.Jumps.{patch_jump-Lands, emit_jump_back-Lands}
use cpp_lox.Compiler.Scopes.{IsScoped, Popped, end_scope-Popped, scope-IsScoped}
use cpp_lox.Compiler.Locals.{Looked, resolve_local-Looked}
use cpp_lox.Compiler.Declared.{Undeclared, declare_variable-resolve_local}
use cpp_lox.Compiler.Upvalues.{Resolved, resolve_upvalue-Resolved}

abbrev parser : Parser
parser = record { line = 3; panic_mode = false; had_error = false }

abbrev named : List ℕ → Token
named lexeme = record { token_type = identifier_token; line = 3; err = no_error; lexeme = lexeme }

abbrev x_local : Local
x_local = record {
  name = named (b'x' ∷ []);
  depth = 1;
  uninitialized = false;
  is_const = true;
  is_captured = false;
}

abbrev y_local : Local
y_local = record {
  name = named (b'y' ∷ []);
  depth = 2;
  uninitialized = true;
  is_const = false;
  is_captured = true;
}

abbrev with_locals : List Local → ℕ → Compiler
with_locals locals depth = record {
  is_initializer = false;
  scope_depth = depth;
  locals = locals;
  upvalues = [];
  upvalue_count = 0;
  chunk = record { code = 36 ∷ 0 ∷ 0 ∷ 9 ∷ 18 ∷ []; value_array = []; lines = [] };
}

abbrev outer : Compiler
outer = with_locals (y_local ∷ x_local ∷ []) 2

abbrev inner : Compiler
inner = with_locals [] 0

outer-IsScoped : IsScoped outer
outer-IsScoped = (omega arith, (omega arith, tt))

patch_jump-Lands_example :
    let after = patch_jump 1 parser outer in
    let operand = read_uint16_le after.1.chunk.code 1 in
    (after.0 ≡ parser)
    × (operand.1 + operand.0 ≡ length after.1.chunk.code)
    × (length after.1.chunk.code ≡ 5)
    × ((i : ℕ)
        → (i == 1) ≡ false
        → (i == 2) ≡ false
        → get_or after.1.chunk.code i 0 ≡ get_or outer.chunk.code i 0)
patch_jump-Lands_example = patch_jump-Lands 1 parser outer (omega arith) (omega arith)

emit_jump_back-Lands_example :
    let after = emit_jump_back 2 parser outer in
    let operand = read_uint16_le after.1.chunk.code 6 in
    (after.0 ≡ parser) × (operand.1 - operand.0 ≡ 2) × (operand.1 ≡ length after.1.chunk.code)
emit_jump_back-Lands_example = emit_jump_back-Lands 2 parser outer (omega arith) (omega arith)

end_scope-Popped_example : Popped 1 outer.locals outer.chunk.code (end_scope parser outer)
end_scope-Popped_example = end_scope-Popped parser outer 1 refl outer-IsScoped

scope-IsScoped_example :
    IsScoped (begin_scope outer)
    × IsScoped (end_scope parser outer)
    × IsScoped (declare_variable (named (b'z' ∷ [])) false parser outer).1
scope-IsScoped_example = scope-IsScoped (named (b'z' ∷ [])) false parser outer outer-IsScoped

resolve_local-Looked_example :
    Looked
      (named (b'x' ∷ []))
      parser
      outer.locals
      (resolve_local (named (b'x' ∷ [])) parser outer.locals)
resolve_local-Looked_example = resolve_local-Looked (named (b'x' ∷ [])) parser outer.locals

abbrev resolution : Resolution
resolution = (
  some (0, true),
  parser,
  record inner { upvalues = record { index = 0; is_local = false } ∷ []; upvalue_count = 1 },
  record inner { upvalues = record { index = 0; is_local = true } ∷ []; upvalue_count = 1 }
      ∷ record outer { locals = y_local ∷ record x_local { is_captured = true } ∷ [] }
      ∷ [],
)

resolves : resolve_upvalue (named (b'x' ∷ [])) parser inner (inner ∷ outer ∷ []) ≡ some resolution
unfolding resolve_upvalue resolve_local same_bytes add_upvalue find_upvalue capture_local pass_on
    mark_captured
resolves = refl

resolve_upvalue-Resolved_example : Resolved (named (b'x' ∷ [])) inner resolution
resolve_upvalue-Resolved_example =
    resolve_upvalue-Resolved (named (b'x' ∷ [])) parser inner (inner ∷ outer ∷ []) resolution
      resolves

x-Undeclared : Undeclared (named (b'x' ∷ [])) 2 outer.locals
x-Undeclared =
    (inr (λ e. omega (arith, ap (λ bytes. get_or bytes 0 0) e)), (inl (λ e. omega (arith, e)), tt))

declare_variable-resolve_local_example :
    let x = named (b'x' ∷ []) in
    let after = declare_variable x true parser outer in
    (after.0 ≡ parser)
    × (resolve_local x parser after.1.locals ≡ (none, report_error parser))
    × (resolve_local x parser (mark_initialized after.1).locals ≡ (some 2, parser))
    × (declare_variable x true parser after.1 ≡ (report_error parser, after.1))
declare_variable-resolve_local_example =
    declare_variable-resolve_local (named (b'x' ∷ [])) true parser outer (omega arith)
      outer-IsScoped x-Undeclared (omega arith)
