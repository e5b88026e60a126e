-- ===== src/Chunk/Words.antt =====
-- What the machine reads back of a 16-bit operand and of the operation that loads a constant.
use mathlib.Core.List.{append_assoc}
use cpp_lox.Prelude.{
  ℕ, zero, suc, ◌+◌, ◌/◌, ◌%◌, ◌<◌, ◌≤◌, ◌≡◌, refl, ap, ◌∙◌, inl, inr, true, false, some, List, [],
  ◌∷◌, ◌++◌, leb, ltb, arith, length, length-append, get_or, get_elem?, Bool-cases, Returns,
}
use cpp_lox.Object.{Value}
use cpp_lox.OpCode.{OpCode, to_byte, op_load_constant, op_load_constant_long}
use cpp_lox.Integers.{pos}
use cpp_lox.Chunk.{
  Chunk, add_line_number, write_byte, write_simple_op, write_uint16_le, write_load_constant,
  read_byte, read_uint16_le, load_constant_index, add_constant, get_value,
}

pair : {a b c d : ℕ} → a ≡ c → b ≡ d → ◌≡◌ {A = ℕ × ℕ} (a, b) (c, d)
pair e f = cc (e, f)

get_or-behind :
    (xs ys : List ℕ) (i k : ℕ) → i ≡ length xs + k → get_or (xs ++ ys) i 0 ≡ get_or ys k 0
get_or-behind [] ys i k e = ap (λ n. get_or ys n 0) (omega arith)
get_or-behind (x ∷ xs) ys zero k e = absurd (omega arith)
get_or-behind (x ∷ xs) ys (suc i) k e = get_or-behind xs ys i k (omega arith)

-- a 16-bit operand at the end of the code
read_uint16_le-end :
    (before : List ℕ) (w ip : ℕ)
    → w < 65536
    → ip ≡ length before
    → read_uint16_le (before ++ (w % 256 ∷ w / 256 % 256 ∷ [])) ip
      ≡ (w, length (before ++ (w % 256 ∷ w / 256 % 256 ∷ [])))
unfolding read_uint16_le read_byte
read_uint16_le-end before w ip h e =
    let operand = w % 256 ∷ w / 256 % 256 ∷ [] in
    let low = get_or-behind before operand ip 0 (omega arith) in
    let high = get_or-behind before operand (ip + 1) 1 (omega arith) in
    pair (omega (arith, low, high)) (omega (arith, length-append before operand))

-- the code after an operation and its operand
module _ (before operand : List ℕ) (op : ℕ) where
  abbrev instruction : List ℕ
  instruction = (before ++ op ∷ []) ++ operand

  opcode-instruction : get_or instruction (length before) 0 ≡ op
  opcode-instruction =
      ap (λ s. get_or s (length before) 0) (append_assoc before (op ∷ []) operand)
      ∙ get_or-behind before (op ∷ operand) (length before) 0 (omega arith)

add_line_number-code : (c : Chunk) (n line : ℕ) → (add_line_number c n line).code ≡ c.code
unfolding add_line_number
add_line_number-code c n line = ground arith

write_byte-code : (c : Chunk) (byte line : ℕ) → (write_byte c byte line).code ≡ c.code ++ byte ∷ []
unfolding write_byte
write_byte-code c byte line = ap (λ s. s ++ byte ∷ []) (add_line_number-code c (length c.code) line)

pub write_simple_op-code :
    (c : Chunk) (op : OpCode) (line : ℕ)
    → (write_simple_op c op line).code ≡ c.code ++ to_byte op ∷ []
unfolding write_simple_op
write_simple_op-code c op line =
    ap (λ s. s ++ to_byte op ∷ []) (add_line_number-code c (length c.code) line)

pub write_uint16_le-code :
    (c : Chunk) (w line : ℕ)
    → (write_uint16_le c w line).code ≡ c.code ++ (w % 256 ∷ w / 256 % 256 ∷ [])
unfolding write_uint16_le
write_uint16_le-code c w line =
    let d = add_line_number c (length c.code) line in
    write_byte-code (write_byte d (w % 256) line) (w / 256 % 256) line
    ∙ ap (λ s. s ++ w / 256 % 256 ∷ [])
        (write_byte-code d (w % 256) line
          ∙ ap (λ s. s ++ w % 256 ∷ []) (add_line_number-code c (length c.code) line))
    ∙ append_assoc c.code (w % 256 ∷ []) (w / 256 % 256 ∷ [])

-- A 16-bit operand is read back from where it was written, and the read ends behind it.
pub read_uint16_le-write :
    (c : Chunk) (w line : ℕ)
    → w < 65536
    → read_uint16_le (write_uint16_le c w line).code (length c.code)
      ≡ (w, length (write_uint16_le c w line).code)
unfolding read_uint16_le read_byte
read_uint16_le-write c w line h =
    rw (write_uint16_le-code c w line) (read_uint16_le-end c.code w (length c.code) h refl)

-- An index below 65536 is written, and the machine reads it back from the operation.
pub load_constant_index-write :
    (c : Chunk) (index line : ℕ)
    → index < 65536
    → Returns
        (write_load_constant c (pos index) line)
        λ d. load_constant_index d.code (length c.code) ≡ some (index, length d.code)
unfolding write_load_constant load_constant_index read_byte read_uint16_le to_byte
load_constant_index-write c index line h = elim (Bool-cases (leb index 255)) [
  | inl e ↦
      let d = write_byte (write_simple_op c op_load_constant line) index line in
      let code : d.code ≡ instruction c.code (index ∷ []) 2 =
        write_byte-code _ index line
        ∙ ap (λ s. s ++ index ∷ []) (write_simple_op-code c op_load_constant line) in
      (
        d,
        rw e,
        rw (code, opcode-instruction c.code (index ∷ []) 2)
            (let before = c.code ++ 2 ∷ [] in
              let width = length-append c.code (2 ∷ []) in
              ap some (
                pair (get_or-behind before (index ∷ []) _ 0 (omega (arith, width)))
                  (omega (arith, width, length-append before (index ∷ []))))),
      )
  | inr e ↦
      let d = write_uint16_le (write_simple_op c op_load_constant_long line) index line in
      let operand = index % 256 ∷ index / 256 % 256 ∷ [] in
      let code : d.code ≡ instruction c.code operand 3 =
        write_uint16_le-code _ index line
        ∙ ap (λ s. s ++ operand) (write_simple_op-code c op_load_constant_long line) in
      let fits : leb index 65535 ≡ true = ground arith in
      (
        d,
        rw (e, fits),
        rw (code, opcode-instruction c.code operand 3)
            (ap some (
              read_uint16_le-end (c.code ++ 3 ∷ []) index (length c.code + 1) h
                (omega (arith, length-append c.code (3 ∷ []))))),
      )
]

get_elem?-append_last :
    (xs : List Value) (v : Value) → get_elem? (xs ++ v ∷ []) (length xs) ≡ some v
get_elem?-append_last [] v = refl
get_elem?-append_last (x ∷ xs) v = get_elem?-append_last xs v

get_elem?-append_before :
    (xs : List Value) (v : Value) (j : ℕ)
    → j < length xs
    → get_elem? (xs ++ v ∷ []) j ≡ get_elem? xs j
get_elem?-append_before [] v j h = absurd (omega arith)
get_elem?-append_before (x ∷ xs) v zero h = refl
get_elem?-append_before (x ∷ xs) v (suc j) h = get_elem?-append_before xs v j (omega arith)

-- A chunk of at most 65535 constants takes one more: its index reads as the constant, the other
-- indices read as before, and the operation that loads it can be written and reads the index back.
pub add_constant-loads :
    (c : Chunk) (v : Value) (line : ℕ)
    → length c.value_array ≤ 65535
    → Returns (add_constant c v) λ r.
      (get_value r.1 (pos r.0) ≡ some v)
      × ((j : ℕ) → j < length c.value_array → get_value r.1 (pos j) ≡ get_value c (pos j))
      × Returns
          (write_load_constant r.1 (pos r.0) line)
          λ d. load_constant_index d.code (length r.1.code) ≡ some (r.0, length d.code)
unfolding add_constant get_value
add_constant-loads c v line h =
    let full : ltb 65535 (length c.value_array) ≡ false = ground arith in
    let added : Chunk = record c { value_array = c.value_array ++ v ∷ [] } in
    (
      (length c.value_array, added),
      rw full,
      (
        get_elem?-append_last c.value_array v,
        get_elem?-append_before c.value_array v,
        load_constant_index-write added (length c.value_array) line (omega arith),
      ),
    )
