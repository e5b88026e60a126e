-- ===== src/Chunk/Lines.antt =====
-- The line table of src/common/chunk.cpp against a list with the line of each byte.
use cpp_lox.Prelude.{
  ℕ, zero, suc, ◌/◌, ◌%◌, ◌<◌, ◌≤◌, ◌≡◌, refl, sym, ap, ◌∙◌, subst, inl, inr, false, List, [], ◌∷◌,
  ◌++◌, ◌==◌, if◌then◌else◌, arith, length, length-append, get_or, Bool-cases,
}
use cpp_lox.OpCode.{OpCode, to_byte}
use cpp_lox.Chunk.{
  LineInfo, Chunk, back, is_new_line, add_line_number, write_byte, write_simple_op, write_uint16_le,
  line_from, get_line_number,
}

abbrev pub line_of : List LineInfo → ℕ → ℕ
line_of [] offset = 0
line_of (first ∷ rest) offset = line_from first.line_number rest offset

pub line_of_lem :
    (c : Chunk) (o : ℕ) (lines : List LineInfo)
    → get_line_number (record c { lines = lines }) o ≡ line_of lines o
unfolding get_line_number line_from
line_of_lem c o [] = refl
line_of_lem c o (first ∷ []) = refl
line_of_lem c o (first ∷ second ∷ rest) = refl

-- every entry starts before byte `n`
abbrev pub Below : ℕ → List LineInfo → Type 0
Below n [] = Unit
Below n (x ∷ xs) = (x.offset < n) × Below n xs

Below-weaken : (n m : ℕ) (xs : List LineInfo) → n ≤ m → Below n xs → Below m xs
Below-weaken n m [] h b = tt
Below-weaken n m (x ∷ xs) h (l, b) = (omega arith, Below-weaken n m xs h b)

Below-append :
    (n : ℕ) (xs : List LineInfo) (x : LineInfo) → x.offset < n → Below n xs → Below n (xs ++ x ∷ [])
Below-append n [] x h b = (h, tt)
Below-append n (y ∷ xs) x h (l, b) = (l, Below-append n xs x h b)

module _ (n l : ℕ) where
  abbrev entry : LineInfo
  entry = record { offset = n; line_number = l }

  -- A new entry at `n` does not change what is read before `n`.
  from-append_before :
      (o line : ℕ) (xs : List LineInfo)
      → o < n
      → line_from line (xs ++ entry ∷ []) o ≡ line_from line xs o
  unfolding line_from
  from-append_before o line [] h = ground arith
  from-append_before o line (x ∷ xs) h = ground (arith, from-append_before o x.line_number xs h)

  from-append_at :
      (line : ℕ) (xs : List LineInfo) → Below n xs → line_from line (xs ++ entry ∷ []) n ≡ l
  unfolding line_from
  from-append_at line [] b = ground arith
  from-append_at line (x ∷ xs) (h, b) = ground (arith, from-append_at x.line_number xs b)

from-end :
    (n : ℕ) (x : LineInfo) (xs : List LineInfo)
    → Below n xs
    → line_from x.line_number xs n ≡ (back x xs).line_number
unfolding line_from back
from-end n x [] b = refl
from-end n x (y ∷ xs) (h, b) = ground (arith, from-end n y xs b)

back-append : (x y : LineInfo) (xs : List LineInfo) → back x (xs ++ y ∷ []) ≡ y
unfolding back
back-append x y [] = refl
back-append x y (z ∷ xs) = back-append z y xs

-- `added` has the line of each byte of the chunk.
pub record IsRecord (c : Chunk) (written : List ℕ) : Type 0 where
  pub width : length written ≡ length c.code
  pub below : Below (length c.code) c.lines
  pub started : 0 < length c.code → 0 < length c.lines
  pub reads : (o : ℕ) → o < length c.code → line_of c.lines o ≡ get_or written o 0

get_or-append :
    (xs : List ℕ) (y o : ℕ)
    → get_or (xs ++ y ∷ []) o 0 ≡ (if o == length xs then y else get_or xs o 0)
get_or-append [] y zero = ground arith
get_or-append [] y (suc o) = ground arith
get_or-append (x ∷ xs) y zero = ground arith
get_or-append (x ∷ xs) y (suc o) = ground (arith, get_or-append xs y o)

-- the lines after `add_line_number` at byte `n`
record Added (n line : ℕ) (old new : List LineInfo) : Type 0 where
  before : (o : ℕ) → o < n → 0 < length old → line_of new o ≡ line_of old o
  here : line_of new n ≡ line
  below : Below (suc n) new
  started : 0 < length new
  settled : is_new_line new line ≡ false

new_lines : List LineInfo → ℕ → ℕ → List LineInfo
new_lines lines n line =
    if is_new_line lines line
    then lines ++ record { offset = n; line_number = line } ∷ []
    else lines

new_lines-Added :
    (n line : ℕ) (old : List LineInfo) → Below n old → Added n line old (new_lines old n line)
unfolding new_lines is_new_line back line_from
new_lines-Added n line [] b = record {
  before = λ o h k. absurd (omega arith);
  here = refl;
  below = (omega arith, tt);
  started = omega arith;
  settled = ground arith;
}
new_lines-Added n line (x ∷ xs) (h, b) = elim (Bool-cases ((back x xs).line_number == line)) [
  | inl e ↦
      rw (new_lines, is_new_line, e)
        (record {
          before = λ o h k. refl;
          here = from-end n x xs b ∙ ground arith;
          below = (omega arith, Below-weaken n (suc n) xs (omega arith) b);
          started = omega arith;
          settled = rw e;
        })
  | inr e ↦
      rw (new_lines, is_new_line, e)
        (record {
          before = λ o h k. from-append_before n line o x.line_number xs h;
          here = from-append_at n line x.line_number xs b;
          below = (
            omega arith,
            Below-append (suc n) xs _ (omega arith) (Below-weaken n (suc n) xs (omega arith) b),
          );
          started = omega arith;
          settled =
              rw (back-append x (record { offset = n; line_number = line }) xs) (ground arith);
        })
]

add_line_number_lem :
    (c : Chunk) (n line : ℕ)
    → add_line_number c n line ≡ record c { lines = new_lines c.lines n line }
unfolding add_line_number new_lines
add_line_number_lem c n line = elim (Bool-cases (is_new_line c.lines line)) [
  | inl e ↦ rw e
  | inr e ↦ rw e
]

push-IsRecord :
    (c : Chunk) (written : List ℕ) (byte line : ℕ) (lines : List LineInfo)
    → IsRecord c written
    → Added (length c.code) line c.lines lines
    → IsRecord (record c { code = c.code ++ byte ∷ []; lines = lines }) (written ++ line ∷ [])
push-IsRecord c written byte line lines r a = record {
  width =
      omega (arith, r.width, length-append written (line ∷ []), length-append c.code (byte ∷ []));
  below = rw (length-append c.code (byte ∷ [])) (subst (λ n. Below n lines) (omega arith) a.below);
  started = λ _. a.started;
  reads = λ o h. elim (Bool-cases (o == length c.code)) [
    | inl e ↦
        subst (λ x. line_of lines x ≡ get_or (written ++ line ∷ []) x 0) (ground arith)
          (a.here ∙ ground (arith, r.width, get_or-append written line (length c.code)))
    | inr e ↦
        let lt : o < length c.code = ground (arith, length-append c.code (byte ∷ [])) in
        a.before o lt (r.started (omega arith))
        ∙ r.reads o lt
        ∙ ground (arith, r.width, get_or-append written line o)
  ];
}

pub write_byte-IsRecord :
    (c : Chunk) (written : List ℕ) (byte line : ℕ)
    → IsRecord c written
    → IsRecord (write_byte c byte line) (written ++ line ∷ [])
unfolding write_byte
write_byte-IsRecord c written byte line r =
    rw (add_line_number_lem c (length c.code) line)
      (push-IsRecord c written byte line _ r (new_lines-Added (length c.code) line c.lines r.below))

pub write_simple_op_lem :
    (c : Chunk) (op : OpCode) (line : ℕ)
    → write_simple_op c op line ≡ write_byte c (to_byte op) line
unfolding write_simple_op write_byte
write_simple_op_lem c op line = refl

add-settled :
    (c : Chunk) (n line : ℕ) → is_new_line c.lines line ≡ false → add_line_number c n line ≡ c
unfolding add_line_number
add-settled c n line e = rw e

-- A second `add_line_number` of the same line changes nothing.
add-twice :
    (c : Chunk) (line byte : ℕ)
    → Below (length c.code) c.lines
    → write_byte (add_line_number c (length c.code) line) byte line ≡ write_byte c byte line
unfolding write_byte
add-twice c line byte b =
    let n = length c.code in
    let added : Chunk = record c { lines = new_lines c.lines n line } in
    let push : Chunk → Chunk = λ d. record d { code = d.code ++ byte ∷ [] } in
    let once = add_line_number_lem c n line in
    ap (λ d. write_byte d byte line) once
    ∙ ap push (add-settled added n line (new_lines-Added n line c.lines b).settled)
    ∙ sym (ap push once)

write_uint16_le_lem :
    (c : Chunk) (bytes line : ℕ)
    → Below (length c.code) c.lines
    → write_uint16_le c bytes line
      ≡ write_byte (write_byte c (bytes % 256) line) (bytes / 256 % 256) line
unfolding write_uint16_le
write_uint16_le_lem c bytes line b =
    ap (λ d. write_byte d (bytes / 256 % 256) line) (add-twice c line (bytes % 256) b)

pub write_uint16_le-IsRecord :
    (c : Chunk) (written : List ℕ) (bytes line : ℕ)
    → IsRecord c written
    → IsRecord (write_uint16_le c bytes line) ((written ++ line ∷ []) ++ line ∷ [])
write_uint16_le-IsRecord c written bytes line r =
    rw (write_uint16_le_lem c bytes line r.below)
      (write_byte-IsRecord _ _ _ line (write_byte-IsRecord c written (bytes % 256) line r))
