-- ===== src/Serialization/FileRead.antt =====
-- A file that is written, and read back.
use cpp_lox.Prelude.{
  ℕ, ◌+◌, ◌-◌, ◌%◌, ◌^◌, ◌<◌, ◌≡◌, refl, sym, ap, ◌∙◌, true, false, some, List, [], ◌∷◌, ◌++◌, ltb,
  ◌==◌, length, drop, arith, length-append,
}
use mathlib.Core.List.{append_assoc}
use cpp_lox.Serialization.Packer.{
  Packer, encode_all, decode_all, decode_all-encode_all, length-encode_all, drop-at, take-at,
  AllFit, values,
}
use cpp_lox.Serialization.Serializer.{SerializedBytecode}
use cpp_lox.Serialization.FileHeader.{
  Checksum, magic, global_table_offset, strings_offset, file_size, version_fields, file_widths,
  section, is_supported, is_compiled_lox_program, write, read,
}

-- the bytes of a part of three
section-middle :
    (pre middle post : List ℕ) (start stop : ℕ)
    → length pre ≡ start
    → start + length middle ≡ stop
    → section start stop (pre ++ (middle ++ post)) ≡ middle
unfolding section
section-middle pre middle post start stop h k =
    rw (drop-at start pre (middle ++ post) h) (take-at (stop - start) middle post (omega arith))

-- the file has room for its sizes
abbrev pub Small : SerializedBytecode → Type 0
Small b =
    (b.chunk_count < 2 ^ 16)
    × (32 + length b.bytecode + length b.globals + length b.strings < 2 ^ 32)

-- the fields of the header, and the sizes as they are
abbrev plain_fields : SerializedBytecode → List (ℕ × ℕ)
plain_fields b =
    (1, 1)
    ∷ (1, 0)
    ∷ (1, 0)
    ∷ (2, b.chunk_count)
    ∷ (4, 32)
    ∷ (4, 32 + length b.bytecode)
    ∷ (4, 32 + length b.bytecode + length b.globals)
    ∷ (4, 32 + length b.bytecode + length b.globals + length b.strings)
    ∷ (1, 0)
    ∷ (1, 0)
    ∷ (1, 0)
    ∷ []

fields-plain : (b : SerializedBytecode) → Small b → version_fields b ≡ plain_fields b
fields-plain b (few, small) =
    let count : b.chunk_count % 2 ^ 16 ≡ b.chunk_count = omega arith in
    let globals : global_table_offset b ≡ 32 + length b.bytecode = omega arith in
    let strings : strings_offset b ≡ 32 + length b.bytecode + length b.globals = omega arith in
    let size : file_size b ≡ 32 + length b.bytecode + length b.globals + length b.strings =
      omega arith in
    rw (count, size, strings, globals)

module _ (packer : Packer) (checksum : Checksum) where
  -- the file with the checksum and the fields given
  abbrev file : SerializedBytecode → ℕ → List (ℕ × ℕ) → List ℕ
  file b crc fields =
      encode_all packer magic
      ++ (packer.encode 4 crc
          ++ (encode_all packer fields ++ (b.bytecode ++ (b.globals ++ b.strings))))

  abbrev whole_crc : SerializedBytecode → List (ℕ × ℕ) → ℕ
  whole_crc b fields =
      checksum.crc 0 (encode_all packer fields ++ (b.bytecode ++ (b.globals ++ b.strings)))

  write-file :
      (b : SerializedBytecode)
      → Small b
      → write packer checksum b ≡ file b (whole_crc b (plain_fields b)) (plain_fields b)
  unfolding write
  write-file b small = rw (
    fields-plain b small,
    checksum.crc-append 0 (encode_all packer (plain_fields b))
        (b.bytecode ++ (b.globals ++ b.strings)),
    checksum.crc-append (checksum.crc 0 (encode_all packer (plain_fields b))) b.bytecode
        (b.globals ++ b.strings),
    checksum.crc-append
        (checksum.crc (checksum.crc 0 (encode_all packer (plain_fields b))) b.bytecode) b.globals
        b.strings,
  )

  -- the whole header
  abbrev all_fields : ℕ → List (ℕ × ℕ) → List (ℕ × ℕ)
  all_fields crc fields = (1, 0) ∷ (1, 76) ∷ (1, 79) ∷ (1, 88) ∷ (4, crc) ∷ fields

  encode_all-before :
      (xs ys : List (ℕ × ℕ)) (zs : List ℕ)
      → encode_all packer xs ++ (encode_all packer ys ++ zs) ≡ encode_all packer (xs ++ ys) ++ zs
  unfolding encode_all
  encode_all-before [] ys zs = refl
  encode_all-before ((w, v) ∷ xs) ys zs =
      append_assoc (packer.encode w v) (encode_all packer xs) (encode_all packer ys ++ zs)
      ∙ ap (λ rest. packer.encode w v ++ rest) (encode_all-before xs ys zs)
      ∙ sym (append_assoc (packer.encode w v) (encode_all packer (xs ++ ys)) zs)

  encode_one :
      (v : ℕ) (fields : List (ℕ × ℕ)) (zs : List ℕ)
      → packer.encode 4 v ++ (encode_all packer fields ++ zs)
        ≡ encode_all packer ((4, v) ∷ fields) ++ zs
  unfolding encode_all
  encode_one v fields zs = sym (append_assoc (packer.encode 4 v) (encode_all packer fields) zs)

  file-fields :
      (b : SerializedBytecode) (crc : ℕ) (fields : List (ℕ × ℕ))
      → file b crc fields
        ≡ encode_all packer (all_fields crc fields) ++ (b.bytecode ++ (b.globals ++ b.strings))
  file-fields b crc fields =
      let body = b.bytecode ++ (b.globals ++ b.strings) in
      ap (λ rest. encode_all packer magic ++ rest) (encode_one crc fields body)
      ∙ encode_all-before magic ((4, crc) ∷ fields) body

  -- what the reader asks of a file, and what it makes of it
  read-buffer :
      (b : SerializedBytecode) (buffer : List ℕ) (crc : ℕ)
      → length buffer ≡ 32 + length b.bytecode + length b.globals + length b.strings
      → decode_all packer file_widths buffer ≡ values (all_fields crc (plain_fields b))
      → checksum.crc 0 (drop 8 buffer) ≡ crc
      → section 32 (32 + length b.bytecode) buffer ≡ b.bytecode
      → section (32 + length b.bytecode) (32 + length b.bytecode + length b.globals) buffer
        ≡ b.globals
      → drop (32 + length b.bytecode + length b.globals) buffer ≡ b.strings
      → read packer checksum buffer ≡ some b
  unfolding read is_supported
  read-buffer b buffer crc size fields same bytecode globals strings =
      let long : ltb (length buffer) 32 ≡ false = ground arith in
      let exact : ((32 + length b.bytecode + length b.globals + length b.strings) == length buffer)
          ≡ true =
        ground arith in
      let valid : (checksum.crc 0 (drop 8 buffer) == crc) ≡ true = ground arith in
      rw (fields, long, valid, exact, bytecode, globals, strings)

  behind_checksum :
      (crc : ℕ) (rest : List ℕ)
      → drop 8 (encode_all packer magic ++ (packer.encode 4 crc ++ rest)) ≡ rest
  behind_checksum crc rest =
      ap (drop 8) (sym (append_assoc (encode_all packer magic) (packer.encode 4 crc) rest))
      ∙ drop-at 8 (encode_all packer magic ++ packer.encode 4 crc) rest (
          omega (
            arith,
            length-append (encode_all packer magic) (packer.encode 4 crc),
            length-encode_all packer magic,
            packer.length_encode 4 crc,
          ))

  header-AllFit :
      (b : SerializedBytecode) (crc : ℕ)
      → Small b
      → crc < 2 ^ 32
      → AllFit (all_fields crc (plain_fields b))
  header-AllFit b crc (few, small) low = (
    omega arith,
    (
      omega arith,
      (
        omega arith,
        (
          omega arith,
          (
            low,
            (
              omega arith,
              (
                omega arith,
                (
                  omega arith,
                  (
                    few,
                    (
                      omega arith,
                      (
                        omega arith,
                        (omega arith, (small, (omega arith, (omega arith, (omega arith, tt))))),
                      ),
                    ),
                  ),
                ),
              ),
            ),
          ),
        ),
      ),
    ),
  )

  whole-read :
      (b : SerializedBytecode) (crc : ℕ)
      → Small b
      → crc ≡ whole_crc b (plain_fields b)
      → read packer checksum (file b crc (plain_fields b)) ≡ some b
  whole-read b crc small e =
      let fields = all_fields crc (plain_fields b) in
      let head = encode_all packer fields in
      let body = b.bytecode ++ (b.globals ++ b.strings) in
      let same = file-fields b crc (plain_fields b) in
      let long : length head ≡ 32 = length-encode_all packer fields in
      let two : length (head ++ b.bytecode) ≡ 32 + length b.bytecode =
        omega (arith, length-append head b.bytecode) in
      let three : length ((head ++ b.bytecode) ++ b.globals)
          ≡ 32 + length b.bytecode + length b.globals =
        omega (arith, length-append (head ++ b.bytecode) b.globals) in
      let low : crc < 2 ^ 32 =
        omega (arith, e, checksum.bounded 0 (encode_all packer (plain_fields b) ++ body)) in
      let regroup = append_assoc head b.bytecode (b.globals ++ b.strings) in
      let regroup' = append_assoc (head ++ b.bytecode) b.globals b.strings ∙ regroup in
      read-buffer b (file b crc (plain_fields b)) crc
        (ap (λ bytes. length bytes) same
          ∙ omega (
            arith,
            length-append head body,
            length-append b.bytecode (b.globals ++ b.strings),
            length-append b.globals b.strings,
          ))
        (ap (decode_all packer file_widths) same
          ∙ decode_all-encode_all packer fields body (header-AllFit b crc small low))
        (ap (checksum.crc 0) (behind_checksum crc (encode_all packer (plain_fields b) ++ body))
          ∙ sym e)
        (ap (section 32 (32 + length b.bytecode)) same
          ∙ section-middle head b.bytecode (b.globals ++ b.strings) 32 (32 + length b.bytecode) long
              (omega arith))
        (ap (section (32 + length b.bytecode) (32 + length b.bytecode + length b.globals))
            (same ∙ sym regroup)
          ∙ section-middle (head ++ b.bytecode) b.globals b.strings (32 + length b.bytecode)
              (32 + length b.bytecode + length b.globals) two (omega arith))
        (ap (drop (32 + length b.bytecode + length b.globals)) (same ∙ sym regroup')
          ∙ drop-at (32 + length b.bytecode + length b.globals) ((head ++ b.bytecode) ++ b.globals)
              b.strings three)

  magic_bytes : encode_all packer magic ≡ 0 ∷ 76 ∷ 79 ∷ 88 ∷ []
  unfolding encode_all
  magic_bytes = rw (
    packer.encode_byte 0 (omega arith),
    packer.encode_byte 76 (omega arith),
    packer.encode_byte 79 (omega arith),
    packer.encode_byte 88 (omega arith),
  )

  recognized :
      (rest : List ℕ)
      → 27 < length rest
      → is_compiled_lox_program (encode_all packer magic ++ rest) ≡ true
  unfolding is_compiled_lox_program
  recognized rest h =
      let long : ltb (length (0 ∷ 76 ∷ 79 ∷ 88 ∷ rest)) 32 ≡ false = ground arith in
      rw (magic_bytes, long)

  -- A program that is written to a file is read back from it, and the file is recognized as one with a
  -- program, where there are fewer than `2 ^ 16` chunks and the file takes fewer than `2 ^ 32` bytes.
  pub read-write :
      (b : SerializedBytecode)
      → Small b
      → (read packer checksum (write packer checksum b) ≡ some b)
        × (is_compiled_lox_program (write packer checksum b) ≡ true)
  read-write b small =
      let crc = whole_crc b (plain_fields b) in
      let body = b.bytecode ++ (b.globals ++ b.strings) in
      let fields = encode_all packer (plain_fields b) in
      (
        ap (read packer checksum) (write-file b small) ∙ whole-read b crc small refl,
        ap is_compiled_lox_program (write-file b small)
            ∙ recognized (packer.encode 4 crc ++ (fields ++ body)) (
                omega (
                  arith,
                  length-append (packer.encode 4 crc) (fields ++ body),
                  length-append fields body,
                  length-encode_all packer (plain_fields b),
                  packer.length_encode 4 crc,
                )),
      )
