-- ===== src/Chunk/Tests.antt =====
-- A chunk of a few writes on three lines.
use cpp_lox.Prelude.{ℕ, ◌<◌, ◌≡◌, refl, true, some, List, [], ◌∷◌, arith, length, get_or, Returns}
use cpp_lox.Object.{nil, boolean}
use cpp_lox.OpCode.{op_nil, op_return, to_byte}
use cpp_lox.Integers.{pos}
use cpp_lox.Chunk.{
  Chunk, add_line_number, write_byte, write_simple_op, write_uint16_le, write_load_constant,
  read_uint16_le, load_constant_index, add_constant, get_value, get_line_number, back, is_new_line,
}
use cpp_lox.Chunk.Written.{
  Write, uint16, constant, simple_op, write_all, write, lines_of, empty_chunk,
  get_line_number-write_all,
}
use cpp_lox.Chunk.Words.{read_uint16_le-write, add_constant-loads}

abbrev writes : List (Write × ℕ)
writes =
    (simple_op op_nil, 1)
    ∷ (constant 7, 1)
    ∷ (constant 300, 2)
    ∷ (constant 70000, 3)
    ∷ (uint16 4660, 4)
    ∷ (simple_op op_return, 4)
    ∷ []

program : Unit {0}
unfolding write_all write empty_chunk write_byte write_simple_op write_uint16_le write_load_constant
    add_line_number is_new_line back to_byte get_value
program = tt

code : (write_all empty_chunk writes).code ≡ 9 ∷ 2 ∷ 7 ∷ 3 ∷ 44 ∷ 1 ∷ 52 ∷ 18 ∷ 1 ∷ []
unfolding program
code = refl

get_line_number-write_all_example :
    get_line_number (write_all empty_chunk writes) 5 ≡ get_or (lines_of writes) 5 0
unfolding program
get_line_number-write_all_example = get_line_number-write_all writes 5 (omega arith)

read_uint16_le-write_example :
    read_uint16_le (write_uint16_le empty_chunk 4660 1).code (length empty_chunk.code)
    ≡ (4660, length (write_uint16_le empty_chunk 4660 1).code)
read_uint16_le-write_example = read_uint16_le-write empty_chunk 4660 1 (omega arith)

abbrev holder : Chunk
holder = record { code = []; value_array = nil ∷ []; lines = [] }

add_constant-loads_example : Returns (add_constant holder (boolean true)) λ r.
    (get_value r.1 (pos r.0) ≡ some (boolean true))
    × ((j : ℕ) → j < length holder.value_array → get_value r.1 (pos j) ≡ get_value holder (pos j))
    × Returns
        (write_load_constant r.1 (pos r.0) 1)
        λ d. load_constant_index d.code (length r.1.code) ≡ some (r.0, length d.code)
add_constant-loads_example = add_constant-loads holder (boolean true) 1 (omega arith)
