-- ===== src/Serialization/Chunks.antt =====
-- One chunk, written and read: the bytes of a function that the deserializer reads at their offset.
use cpp_lox.Prelude.{
  ℕ, ◌+◌, ◌*◌, ◌%◌, ◌^◌, ◌<◌, ◌≤◌, ◌≡◌, refl, sym, ap, ◌∙◌, false, some, List, [], ◌∷◌, ◌++◌, ltb,
  length, drop, length-append, arith,
}
use mathlib.Core.List.{append_assoc}
use cpp_lox.Chunk.{LineInfo}
use cpp_lox.Serialization.Packer.{
  Packer, encode_all, drop-at, length-encode_all, decode_all-encode_all, drop-append,
}
use cpp_lox.Serialization.Serializer.{write_lines}
use cpp_lox.Serialization.Deserializer.{add32, read_lines, deserialize_debug_info}

-- lines that fit
abbrev pub LinesFit : List LineInfo → Type 0
LinesFit [] = Unit
LinesFit (line ∷ lines) = (line.offset < 2 ^ 32) × (line.line_number < 2 ^ 32) × LinesFit lines

small-mod : (n : ℕ) → n < 2 ^ 32 → n % 2 ^ 32 ≡ n
small-mod n h = omega arith

-- behind two parts
pub drop_two :
    (pre head more : List ℕ) (n : ℕ)
    → length head ≡ n
    → drop (length pre + n) (pre ++ (head ++ more)) ≡ more
drop_two pre head more n h =
    ap (drop (length pre + n)) (sym (append_assoc pre head more))
    ∙ drop-at (length pre + n) (pre ++ head) more (omega (arith, length-append pre head))

module _ (packer : Packer) where
  length-write_lines :
      (lines : List LineInfo) → length (write_lines packer lines) ≡ length lines * 8
  unfolding write_lines
  length-write_lines [] = refl
  length-write_lines (line ∷ lines) = omega (
    arith,
    length-append
        (encode_all packer ((4, line.offset % 2 ^ 32) ∷ (4, line.line_number % 2 ^ 32) ∷ []))
        (write_lines packer lines),
    length-encode_all packer ((4, line.offset % 2 ^ 32) ∷ (4, line.line_number % 2 ^ 32) ∷ []),
    length-write_lines lines,
  )

  -- the fields of a line, without the conversions to 32 bits
  line_fields :
      (o l : ℕ)
      → o < 2 ^ 32
      → l < 2 ^ 32
      → encode_all packer ((4, o % 2 ^ 32) ∷ (4, l % 2 ^ 32) ∷ [])
        ≡ encode_all packer ((4, o) ∷ (4, l) ∷ [])
  line_fields o l low low' = rw (small-mod o low, small-mod l low')

  read_lines-write_lines :
      (lines : List LineInfo) (rest : List ℕ)
      → LinesFit lines
      → read_lines packer (length lines) (write_lines packer lines ++ rest) ≡ lines
  unfolding write_lines read_lines
  read_lines-write_lines [] rest h = refl
  read_lines-write_lines (line ∷ lines) rest (low, low', h) =
      let fields : List (ℕ × ℕ) = (4, line.offset) ∷ (4, line.line_number) ∷ [] in
      let more = write_lines packer lines ++ rest in
      rw (
        line_fields line.offset line.line_number low low',
        append_assoc (encode_all packer fields) (write_lines packer lines) rest,
        decode_all-encode_all packer fields more (low, (low', tt)),
        drop-at 8 (encode_all packer fields) more (length-encode_all packer fields),
        read_lines-write_lines lines rest h,
      )

  -- the debug information of a chunk
  abbrev pub debug_bytes : List LineInfo → List ℕ
  debug_bytes lines =
      encode_all packer ((4, length lines) ∷ (4, 0) ∷ []) ++ write_lines packer lines

  pub length-debug_bytes :
      (lines : List LineInfo) → length (debug_bytes lines) ≡ 8 + length lines * 8
  length-debug_bytes lines = omega (
    arith,
    length-append (encode_all packer ((4, length lines) ∷ (4, 0) ∷ [])) (write_lines packer lines),
    length-encode_all packer ((4, length lines) ∷ (4, 0) ∷ []),
    length-write_lines lines,
  )

  pub debug_info-read :
      (lines : List LineInfo) (pre post : List ℕ) (size : ℕ)
      → LinesFit lines
      → length pre + length (debug_bytes lines) ≤ size
      → size < 2 ^ 32
      → deserialize_debug_info packer size (pre ++ (debug_bytes lines ++ post)) (length pre)
        ≡ some (length pre + length (debug_bytes lines), lines)
  unfolding deserialize_debug_info add32
  debug_info-read lines pre post size fit room small =
      let n = length lines in
      let head = encode_all packer ((4, n) ∷ (4, 0) ∷ []) in
      let long = length-debug_bytes lines in
      let more = write_lines packer lines ++ post in
      let start : (length pre + 8) % 2 ^ 32 ≡ length pre + 8 = omega arith in
      let stop : (length pre + 8 + n * 8 % 2 ^ 32) % 2 ^ 32
          ≡ length pre + length (debug_bytes lines) =
        omega arith in
      let in_head : ltb size (length pre + 8) ≡ false = ground arith in
      let in_lines : ltb size (length pre + length (debug_bytes lines)) ≡ false = ground arith in
      rw (
        append_assoc head (write_lines packer lines) post,
        drop-append pre (head ++ more),
        decode_all-encode_all packer ((4, n) ∷ (4, 0) ∷ []) more (omega arith, (omega arith, tt)),
        start,
        stop,
        in_head,
        in_lines,
        drop_two pre head more 8 (length-encode_all packer ((4, n) ∷ (4, 0) ∷ [])),
        read_lines-write_lines lines post fit,
      )
