-- ===== src/Chunk.antt =====
-- include/chunk.hpp and src/common/chunk.cpp: a function's bytes, its constants and its line table;
-- and the reads of the machine, include/vm.hpp, that take the bytes back.
-- A byte is a number below 256, `& 0xFF` a remainder and `>> 8` a quotient; the `|` of a byte and a
-- byte shifted by 8 is their sum. Offsets and lines are the non-negative part of `int`. `none` is
-- an exception, and in `get_value` a missing value.
pub mod Lines
pub mod Written
pub mod Words
mod Tests
use cpp_lox.Prelude.{
  ℕ, zero, suc, ◌+◌, ◌-◌, ◌*◌, ◌/◌, ◌%◌, Bool, true, false, Option, none, some, List, [], ◌∷◌, ◌++◌,
  ltb, leb, ◌==◌, if◌then◌else◌, length, get_or, get_elem?, ◌>>=◌,
}
use cpp_lox.Object.{Value}
use cpp_lox.OpCode.{OpCode, to_byte, op_load_constant, op_load_constant_long}
use cpp_lox.Integers.{ℤ, pos, negsuc}

pub record LineInfo : Type 0 where
  pub offset : ℕ
  pub line_number : ℕ

pub record Chunk : Type 0 where
  pub code : List ℕ
  pub value_array : List Value
  pub lines : List LineInfo

-- `lines.back()` of a list that starts with `first`
unfoldable pub back : LineInfo → List LineInfo → LineInfo
back first [] = first
back first (x ∷ xs) = back x xs

-- whether `add_line_number` adds an entry
unfoldable pub is_new_line : List LineInfo → ℕ → Bool
is_new_line [] line = true
is_new_line (x ∷ xs) line = if (back x xs).line_number == line then false else true

unfoldable pub add_line_number : Chunk → ℕ → ℕ → Chunk
add_line_number c offset line =
    if is_new_line c.lines line
    then record c { lines = c.lines ++ record { offset = offset; line_number = line } ∷ [] }
    else c

unfoldable pub write_byte : Chunk → ℕ → ℕ → Chunk
write_byte c byte line =
    let added = add_line_number c (length c.code) line in
    record added { code = added.code ++ byte ∷ [] }

unfoldable pub write_simple_op : Chunk → OpCode → ℕ → Chunk
write_simple_op c op line =
    let added = add_line_number c (length c.code) line in
    record added { code = added.code ++ to_byte op ∷ [] }

unfoldable pub write_uint16_le : Chunk → ℕ → ℕ → Chunk
write_uint16_le c bytes line =
    let added = add_line_number c (length c.code) line in
    write_byte (write_byte added (bytes % 256) line) (bytes / 256 % 256) line

unfoldable pub write_load_constant : Chunk → ℤ → ℕ → Option Chunk
write_load_constant c (negsuc n) line = none
write_load_constant c (pos index) line =
    if leb index 255
    then some (write_byte (write_simple_op c op_load_constant line) index line)
    else if leb index 65535
    then some (write_uint16_le (write_simple_op c op_load_constant_long line) index line)
    else none

-- the index of the constant, and the chunk
unfoldable pub add_constant : Chunk → Value → Option (ℕ × Chunk)
add_constant c value =
    if ltb 65535 (length c.value_array)
    then none
    else some (length c.value_array, record c { value_array = c.value_array ++ value ∷ [] })

unfoldable pub get_value : Chunk → ℤ → Option Value
get_value c (negsuc n) = none
get_value c (pos index) = get_elem? c.value_array index

-- The loop of `get_line_number` behind an entry: `line` is the one of that entry.
unfoldable pub line_from : ℕ → List LineInfo → ℕ → ℕ
line_from line [] offset = line
line_from line (x ∷ xs) offset =
    let rest = line_from x.line_number xs offset in
    if ltb offset x.offset then line else if x.offset == offset then x.line_number else rest

unfoldable pub get_line_number : Chunk → ℕ → ℕ
get_line_number c offset = elim c.lines [
  | [] ↦ 0
  | first ∷ [] ↦ first.line_number
  | first ∷ second ∷ rest ↦ line_from first.line_number (second ∷ rest) offset
]

-- The machine: a read gives what it reads and the next `ip`. A read past the code gives zero.
unfoldable pub read_byte : List ℕ → ℕ → ℕ × ℕ
read_byte code ip = (get_or code ip 0, ip + 1)

unfoldable pub read_uint16_le : List ℕ → ℕ → ℕ × ℕ
read_uint16_le code ip =
    let (low, next) = read_byte code ip in
    let (high, after) = read_byte code next in (low + high * 256 % 65536, after)

-- the two operations that load a constant: the index that the machine reads, and the next `ip`
unfoldable pub load_constant_index : List ℕ → ℕ → Option (ℕ × ℕ)
load_constant_index code ip =
    let (op, next) = read_byte code ip in
    if op == to_byte op_load_constant
    then some (read_byte code next)
    else if op == to_byte op_load_constant_long
    then some (read_uint16_le code next)
    else none
