-- ===== src/Compiler/Jumps.antt =====
-- Where a jump lands.
use cpp_lox.Prelude.{
  ℕ, ◌+◌, ◌-◌, ◌/◌, ◌%◌, ◌<◌, ◌≤◌, ◌≡◌, sym, ap, ◌∙◌, [], ◌∷◌, true, false, ltb, length, get_or,
  set, length-set, get_or-set, length-append, arith, ◌==◌,
}
use cpp_lox.OpCode.{to_byte, op_jump_backward}
use cpp_lox.Chunk.{read_byte, read_uint16_le, write_simple_op, write_uint16_le}
use cpp_lox.Chunk.Words.{read_uint16_le-write, write_simple_op-code, write_uint16_le-code}
use cpp_lox.Compiler.{
  Parser, Compiler, emit_opcode, emit_uint16_le, patch_jump, emit_jump_back, limit_jump,
}

pair : {a b c d : ℕ} → a ≡ c → b ≡ d → ◌≡◌ {A = ℕ × ℕ} (a, b) (c, d)
pair e f = cc (e, f)

-- A jump whose operand is in the code, and that goes over at most 65535 bytes, is patched to the end
-- of the code: the operand that the machine reads brings it there, no error is reported, and all other
-- bytes stay.
pub patch_jump-Lands :
    (offset : ℕ) (parser : Parser) (c : Compiler)
    → offset + 2 ≤ length c.chunk.code
    → length c.chunk.code - offset - 2 < 65536
    → let after = patch_jump offset parser c in
      let operand = read_uint16_le after.1.chunk.code offset in
      (after.0 ≡ parser)
      × (operand.1 + operand.0 ≡ length after.1.chunk.code)
      × (length after.1.chunk.code ≡ length c.chunk.code)
      × ((i : ℕ)
          → (i == offset) ≡ false
          → (i == offset + 1) ≡ false
          → get_or after.1.chunk.code i 0 ≡ get_or c.chunk.code i 0)
unfolding patch_jump read_uint16_le read_byte
patch_jump-Lands offset parser c room short =
    let code = c.chunk.code in
    let jump = length code - offset - 2 in
    let once = set code offset (jump % 256) in
    let twice = set once (offset + 1) (jump / 256 % 256) in
    let width = length-set code offset (jump % 256) in
    let width' = length-set once (offset + 1) (jump / 256 % 256) in
    let fits : ltb 65535 jump ≡ false = ground arith in
    let same : (offset == offset) ≡ true = ground arith in
    let other : (offset + 1 == offset) ≡ false = ground arith in
    let other' : (offset + 1 == offset + 1) ≡ true = ground arith in
    let low : get_or twice offset 0 ≡ jump % 256 = rw (
      get_or-set once (offset + 1) offset (jump / 256 % 256) 0 (omega arith),
      other,
      get_or-set code offset offset (jump % 256) 0 (omega arith),
      same,
    ) in
    let high : get_or twice (offset + 1) 0 ≡ jump / 256 % 256 =
      rw (get_or-set once (offset + 1) (offset + 1) (jump / 256 % 256) 0 (omega arith), other') in
    (
      rw fits,
      omega (arith, low, high),
      omega arith,
      λ i away away'.
          let a : (offset == i) ≡ false = ground arith in
          let b : (offset + 1 == i) ≡ false = ground arith in
          rw (
            get_or-set once (offset + 1) i (jump / 256 % 256) 0 (omega arith),
            b,
            get_or-set code offset i (jump % 256) 0 (omega arith),
            a,
          ),
    )

-- A jump back over fewer than 65533 bytes is emitted with the operand that brings the machine, which has
-- read it, back to the location, and no error is reported.
pub emit_jump_back-Lands :
    (location : ℕ) (parser : Parser) (c : Compiler)
    → location ≤ length c.chunk.code
    → length c.chunk.code - location < 65533
    → let after = emit_jump_back location parser c in
      let operand = read_uint16_le after.1.chunk.code (length c.chunk.code + 1) in
      (after.0 ≡ parser)
      × (operand.1 - operand.0 ≡ location)
      × (operand.1 ≡ length after.1.chunk.code)
unfolding emit_jump_back emit_opcode emit_uint16_le
emit_jump_back-Lands location parser c before short =
    let op = write_simple_op c.chunk op_jump_backward parser.line in
    let size : length op.code ≡ length c.chunk.code + 1 = omega (
      arith,
      ap length (write_simple_op-code c.chunk op_jump_backward parser.line),
      length-append c.chunk.code (to_byte op_jump_backward ∷ []),
    ) in
    let jump = length op.code - location + 2 in
    let line = (limit_jump jump parser).line in
    let fits : ltb 65535 jump ≡ false = ground arith in
    let done = write_uint16_le op (jump % 65536) line in
    let read : read_uint16_le done.code (length c.chunk.code + 1)
        ≡ (jump % 65536, length done.code) =
      ap (read_uint16_le done.code) (sym size)
      ∙ read_uint16_le-write op (jump % 65536) line (omega arith) in
    let width : length done.code ≡ length op.code + 2 = omega (
      arith,
      ap length (write_uint16_le-code op (jump % 65536) line),
      length-append op.code (jump % 65536 % 256 ∷ jump % 65536 / 256 % 256 ∷ []),
    ) in
    let operand = ap (λ (r : ℕ × ℕ). r.0) read in
    let end = ap (λ (r : ℕ × ℕ). r.1) read in (rw fits, omega (arith, operand, end), end)
