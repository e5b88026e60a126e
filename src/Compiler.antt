-- ===== src/Compiler.antt =====
-- src/compiler/compiler.cpp: what the compiler knows of scopes, locals and upvalues, and the jumps
-- that it emits and patches.
-- The locals are the vector from its end, so that the index of one is the number of locals under it.
-- The compilers of the enclosing functions are a list, the innermost first. `none` is an exception,
-- and for an index the value -1. A scope ends only after it began.
pub mod Jumps
pub mod Scopes
pub mod Locals
pub mod Upvalues
pub mod Declared
mod Tests
use cpp_lox.Prelude.{
  ℕ, zero, suc, ◌+◌, ◌-◌, ◌/◌, ◌%◌, Bool, true, false, Option, none, some, List, [], ◌∷◌, ◌++◌, ltb,
  ◌==◌, ◌&&◌, not, if◌then◌else◌, length, set, ◌>>=◌,
}
use cpp_lox.OpCode.{
  OpCode, op_nil, op_return, op_load_local, op_close_upvalue, op_pop_top, op_jump_backward,
}
use cpp_lox.Chunk.{Chunk, write_byte, write_simple_op, write_uint16_le}
use cpp_lox.Token.{Token}
use cpp_lox.Execute.Values.{same_bytes}

-- the parser, as far as the compiler changes it; `line` is the one of the previous token
pub record Parser : Type 0 where
  pub line : ℕ
  pub panic_mode : Bool
  pub had_error : Bool

pub record Local : Type 0 where
  pub name : Token
  pub depth : ℕ
  pub uninitialized : Bool
  pub is_const : Bool
  pub is_captured : Bool

pub record UpvalueEntry : Type 0 where
  pub index : ℕ
  pub is_local : Bool

pub record Compiler : Type 0 where
  pub is_initializer : Bool
  pub scope_depth : ℕ
  pub locals : List Local
  pub upvalues : List UpvalueEntry
  pub upvalue_count : ℕ
  pub chunk : Chunk

abbrev pub max_number_of_local_variables : ℕ
max_number_of_local_variables = 2048

unfoldable pub report_error : Parser → Parser
report_error parser =
    if parser.panic_mode then parser else record parser { panic_mode = true; had_error = true }

unfoldable pub emit_opcode : OpCode → Parser → Compiler → Compiler
emit_opcode code parser c = record c { chunk = write_simple_op c.chunk code parser.line }

unfoldable pub emit_byte : ℕ → Parser → Compiler → Compiler
emit_byte byte parser c = record c { chunk = write_byte c.chunk byte parser.line }

unfoldable pub emit_uint16_le : ℕ → Parser → Compiler → Compiler
emit_uint16_le bytes parser c = record c { chunk = write_uint16_le c.chunk bytes parser.line }

unfoldable pub emit_return : Parser → Compiler → Compiler
emit_return parser c = emit_opcode op_return parser (
    if c.is_initializer
    then emit_uint16_le 0 parser (emit_opcode op_load_local parser c)
    else emit_opcode op_nil parser c)

-- the place of the operand, and the compiler
unfoldable pub emit_jump : OpCode → Parser → Compiler → ℕ × Compiler
emit_jump code parser c =
    let emitted = emit_uint16_le 0 parser (emit_opcode code parser c) in
    (length emitted.chunk.code - 2, emitted)

abbrev pub limit_jump : ℕ → Parser → Parser
limit_jump jump parser = if ltb 65535 jump then report_error parser else parser

unfoldable pub patch_jump : ℕ → Parser → Compiler → Parser × Compiler
patch_jump offset parser c =
    let jump = length c.chunk.code - offset - 2 in
    (
      limit_jump jump parser,
      record c {
        chunk = record (c.chunk) {
          code = set (set c.chunk.code offset (jump % 256)) (offset + 1) (jump / 256 % 256);
        };
      },
    )

unfoldable pub emit_jump_back : ℕ → Parser → Compiler → Parser × Compiler
emit_jump_back absolute_location parser c =
    let emitted = emit_opcode op_jump_backward parser c in
    let offset = length emitted.chunk.code - absolute_location + 2 in
    (limit_jump offset parser, emit_uint16_le (offset % 65536) (limit_jump offset parser) emitted)

unfoldable pub begin_scope : Compiler → Compiler
begin_scope c = record c { scope_depth = c.scope_depth + 1 }

-- what the end of the scope does to a local
unfoldable pub pop_op : Local → OpCode
pop_op local = if local.is_captured then op_close_upvalue else op_pop_top

-- the loop of `end_scope`: the locals that are left, and the compiler
unfoldable pub pop_locals : ℕ → Parser → List Local → Compiler → Compiler
pop_locals depth parser [] c = record c { locals = [] }
pop_locals depth parser (local ∷ rest) c =
    let popped = pop_locals depth parser rest (emit_opcode (pop_op local) parser c) in
    if ltb depth local.depth then popped else record c { locals = local ∷ rest }

unfoldable pub end_scope : Parser → Compiler → Compiler
end_scope parser c =
    pop_locals (c.scope_depth - 1) parser c.locals (record c { scope_depth = c.scope_depth - 1 })

abbrev pub initialize_last : List Local → List Local
initialize_last [] = []
initialize_last (local ∷ rest) = record local { uninitialized = false } ∷ rest

unfoldable pub mark_initialized : Compiler → Compiler
mark_initialized c =
    if ltb 0 c.scope_depth then record c { locals = initialize_last c.locals } else c

unfoldable pub add_local : Token → Bool → Parser → Compiler → Parser × Compiler
add_local name is_const parser c =
    if length c.locals == max_number_of_local_variables then (report_error parser, c) else (
      parser,
      record c {
        locals =
            record {
              name = name;
              depth = c.scope_depth;
              uninitialized = true;
              is_const = is_const;
              is_captured = false;
            }
            ∷ c.locals;
      },
    )

-- whether the name is declared in the scope of the depth
unfoldable pub is_redeclared : Token → ℕ → List Local → Bool
is_redeclared token depth [] = false
is_redeclared token depth (local ∷ rest) =
    if ltb local.depth depth
    then false
    else if same_bytes local.name.lexeme token.lexeme
    then true
    else is_redeclared token depth rest

-- `token` is the previous one of the parser
unfoldable pub declare_variable : Token → Bool → Parser → Compiler → Parser × Compiler
declare_variable token is_constant parser c =
    if c.scope_depth == 0
    then (parser, c)
    else if is_redeclared token c.scope_depth c.locals
    then (report_error parser, c)
    else add_local token is_constant parser c

unfoldable pub resolve_local : Token → Parser → List Local → Option ℕ × Parser
resolve_local name parser [] = (none, parser)
resolve_local name parser (local ∷ rest) =
    if same_bytes local.name.lexeme name.lexeme
    then (if local.uninitialized then (none, report_error parser) else (some (length rest), parser))
    else resolve_local name parser rest

-- `locals[index]`, and the same with `is_captured` set
unfoldable pub local_at : ℕ → List Local → Option Local
local_at index [] = none
local_at index (local ∷ rest) = if length rest == index then some local else local_at index rest

unfoldable pub mark_captured : ℕ → List Local → List Local
mark_captured index [] = []
mark_captured index (local ∷ rest) =
    (if length rest == index then record local { is_captured = true } else local)
    ∷ mark_captured index rest

unfoldable pub same_entry : UpvalueEntry → ℕ → Bool → Bool
same_entry upvalue index is_local =
    (upvalue.index == index) && (if is_local then upvalue.is_local else not upvalue.is_local)

-- the loop of `add_upvalue`
unfoldable pub find_upvalue : ℕ → Bool → ℕ → List UpvalueEntry → Option ℕ
find_upvalue index is_local idx [] = none
find_upvalue index is_local idx (upvalue ∷ rest) =
    if same_entry upvalue index is_local
    then some idx
    else find_upvalue index is_local (idx + 1) rest

abbrev pub push_upvalue : ℕ → Bool → Compiler → Option ℕ → ℕ × Compiler
push_upvalue index is_local c (some idx) = (idx, c)
push_upvalue index is_local c none =
    let upvalues = c.upvalues ++ record { index = index; is_local = is_local } ∷ [] in
    (length upvalues - 1, record c { upvalues = upvalues; upvalue_count = length upvalues })

unfoldable pub add_upvalue : ℕ → Bool → Compiler → Option (ℕ × Compiler)
add_upvalue index is_local c =
    if ltb 65535 (length c.upvalues)
    then none
    else some (push_upvalue index is_local c (find_upvalue index is_local 0 c.upvalues))

-- an index and whether the variable is constant, or -1; the parser, the compiler, the enclosing ones
abbrev pub Resolution : Type 0
Resolution = Option (ℕ × Bool) × Parser × Compiler × List Compiler

abbrev pub is_const_at : ℕ → List Local → Bool
is_const_at index [] = false
is_const_at index (local ∷ rest) =
    if length rest == index then local.is_const else is_const_at index rest

-- the variable is a local of the enclosing function
unfoldable pub capture_local : ℕ → Parser → Compiler → Compiler → List Compiler → Option Resolution
capture_local local parser c enclosing rest = add_upvalue local true c >>= λ added. some (
  some (added.0, is_const_at local enclosing.locals),
  parser,
  added.1,
  record enclosing { locals = mark_captured local enclosing.locals } ∷ rest,
)

-- the variable is an upvalue of the enclosing function, or there is none
unfoldable pub pass_on : Compiler → Resolution → Option Resolution
pass_on c (none, parser, enclosing, rest) = some (none, parser, c, enclosing ∷ rest)
pass_on c (some (upvalue, is_const), parser, enclosing, rest) =
    add_upvalue upvalue false c >>= λ added.
    some (some (added.0, is_const), parser, added.1, enclosing ∷ rest)

abbrev pub upvalue_for :
    Option ℕ × Parser → Compiler → Compiler → List Compiler → Option Resolution → Option Resolution
upvalue_for (some local, parser) c enclosing rest deeper =
    capture_local local parser c enclosing rest
upvalue_for (none, parser) c enclosing rest deeper = deeper >>= pass_on c

unfoldable pub resolve_upvalue : Token → Parser → Compiler → List Compiler → Option Resolution
resolve_upvalue name parser c [] = some (none, parser, c, [])
resolve_upvalue name parser c (enclosing ∷ rest) =
    let local = resolve_local name parser enclosing.locals in
    upvalue_for local c enclosing rest (resolve_upvalue name local.1 enclosing rest)
