-- ===== src/Chunk/Written.antt =====
-- Any sequence of writes into an empty chunk, and the lines that `get_line_number` then gives.
use mathlib.Core.List.{append_assoc, append-nil}
use cpp_lox.Prelude.{
  ℕ, ◌<◌, ◌≡◌, refl, sym, ◌∙◌, subst, inl, inr, Option, none, some, List, [], ◌∷◌, ◌++◌, leb,
  if◌then◌else◌, arith, length, get_or, replicate, Bool-cases,
}
use cpp_lox.OpCode.{OpCode, to_byte, op_load_constant, op_load_constant_long}
use cpp_lox.Integers.{pos}
use cpp_lox.Chunk.{
  Chunk, write_byte, write_simple_op, write_uint16_le, write_load_constant, get_line_number,
}
use cpp_lox.Chunk.Lines.{
  IsRecord, line_of_lem, write_byte-IsRecord, write_simple_op_lem, write_uint16_le-IsRecord,
}

-- The writes of the compiler, and the chunk after them. A write that throws leaves the chunk.
pub data Write : Type 0 where
  byte uint16 constant : ℕ → Write
  simple_op : OpCode → Write

abbrev or_unchanged : Chunk → Option Chunk → Chunk
or_unchanged c none = c
or_unchanged c (some d) = d

unfoldable pub write : Chunk → Write → ℕ → Chunk
write c (byte b) line = write_byte c b line
write c (uint16 w) line = write_uint16_le c w line
write c (simple_op op) line = write_simple_op c op line
write c (constant index) line = or_unchanged c (write_load_constant c (pos index) line)

unfoldable pub write_all : Chunk → List (Write × ℕ) → Chunk
write_all c [] = c
write_all c ((w, line) ∷ ws) = write_all (write c w line) ws

-- how many bytes a write takes
unfoldable pub width_of : Write → ℕ
width_of (byte b) = 1
width_of (uint16 w) = 2
width_of (simple_op op) = 1
width_of (constant index) = if leb index 255 then 2 else if leb index 65535 then 3 else 0

-- the line of each byte that the writes take
unfoldable pub lines_of : List (Write × ℕ) → List ℕ
unfolding replicate
lines_of [] = []
lines_of ((w, line) ∷ ws) = replicate (width_of w) line ++ lines_of ws

unfoldable pub empty_chunk : Chunk
empty_chunk = record { code = []; value_array = []; lines = [] }

empty-IsRecord : IsRecord empty_chunk []
unfolding empty_chunk
empty-IsRecord = record {
  width = refl;
  below = tt;
  started = λ h. absurd (omega arith);
  reads = λ o h. absurd (omega arith);
}

write_simple_op-IsRecord :
    (c : Chunk) (written : List ℕ) (op : OpCode) (line : ℕ)
    → IsRecord c written
    → IsRecord (write_simple_op c op line) (written ++ line ∷ [])
write_simple_op-IsRecord c written op line r =
    rw (write_simple_op_lem c op line) (write_byte-IsRecord c written (to_byte op) line r)

extend :
    (c : Chunk) (xs ys zs : List ℕ) (d : Chunk)
    → IsRecord d ((xs ++ ys) ++ zs)
    → IsRecord d (xs ++ (ys ++ zs))
extend c xs ys zs d r = subst (IsRecord d) (append_assoc xs ys zs) r

write-IsRecord :
    (c : Chunk) (written : List ℕ) (w : Write) (line : ℕ)
    → IsRecord c written
    → IsRecord (write c w line) (written ++ replicate (width_of w) line)
unfolding write width_of replicate write_load_constant
write-IsRecord c written (byte b) line r = write_byte-IsRecord c written b line r
write-IsRecord c written (uint16 w) line r =
    extend c written (line ∷ []) (line ∷ []) _ (write_uint16_le-IsRecord c written w line r)
write-IsRecord c written (simple_op op) line r = write_simple_op-IsRecord c written op line r
write-IsRecord c written (constant index) line r = elim (Bool-cases (leb index 255)) [
  | inl e ↦ rw e (
      extend c written (line ∷ []) (line ∷ []) _ (
        write_byte-IsRecord _ _ index line
          (write_simple_op-IsRecord c written op_load_constant line r)))
  | inr e ↦ elim (Bool-cases (leb index 65535)) [
    | inl f ↦
        rw (e, f)
          (extend c written (line ∷ []) (line ∷ line ∷ []) _ (
            extend c _ (line ∷ []) (line ∷ []) _ (
              write_uint16_le-IsRecord _ _ index line
                (write_simple_op-IsRecord c written op_load_constant_long line r))))
    | inr f ↦ rw (e, f) (subst (IsRecord c) (sym (append-nil written)) r)
  ]
]

write_all-IsRecord :
    (ws : List (Write × ℕ)) (c : Chunk) (written : List ℕ)
    → IsRecord c written
    → IsRecord (write_all c ws) (written ++ lines_of ws)
unfolding write_all lines_of
write_all-IsRecord [] c written r = subst (IsRecord c) (sym (append-nil written)) r
write_all-IsRecord ((w, line) ∷ ws) c written r =
    extend c written (replicate (width_of w) line) (lines_of ws) _
      (write_all-IsRecord ws _ _ (write-IsRecord c written w line r))

-- After any sequence of writes into an empty chunk the line of each byte of the code is the one
-- with which it was written.
pub get_line_number-write_all :
    (ws : List (Write × ℕ)) (o : ℕ)
    → o < length (write_all empty_chunk ws).code
    → get_line_number (write_all empty_chunk ws) o ≡ get_or (lines_of ws) o 0
get_line_number-write_all ws o h =
    let c = write_all empty_chunk ws in
    line_of_lem c o c.lines ∙ (write_all-IsRecord ws empty_chunk [] empty-IsRecord).reads o h
