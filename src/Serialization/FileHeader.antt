-- ===== src/Serialization/FileHeader.antt =====
-- include/file_header.hpp: the file that a serialized program is kept in.
-- A file is its bytes; opening, reading and writing it succeed. `none` is an exception. The checksum
-- of thirdparty/crc32 is a parameter. The offsets of a header are not tested: sections that are out
-- of order or end past the file, which is undefined, read as what there is.
use cpp_lox.Prelude.{
  ℕ, ◌+◌, ◌-◌, ◌%◌, ◌^◌, ◌<◌, ◌≡◌, Bool, false, not, ◌&&◌, ◌||◌, Option, none, some, List, [], ◌∷◌,
  ◌++◌, ltb, ◌==◌, if◌then◌else◌, length, get_or, take, drop,
}
use cpp_lox.Serialization.Packer.{Packer, encode_all, decode_all}
use cpp_lox.Serialization.Serializer.{SerializedBytecode}

-- `Crc32_ComputeBuf`: the checksum of more bytes goes on from the one of those before them
pub record Checksum : Type 0 where
  pub crc : ℕ → List ℕ → ℕ
  pub crc-append : (start : ℕ) (xs ys : List ℕ) → crc start (xs ++ ys) ≡ crc (crc start xs) ys
  pub bounded : (start : ℕ) (xs : List ℕ) → crc start xs < 2 ^ 32

abbrev pub magic : List (ℕ × ℕ)
magic = (1, 0) ∷ (1, 76) ∷ (1, 79) ∷ (1, 88) ∷ []

abbrev pub version_major : ℕ
version_major = 1

abbrev pub version_minor : ℕ
version_minor = 0

abbrev pub version_patch : ℕ
version_patch = 0

-- the offsets of the globals and of the strings, and the size of the file
abbrev pub global_table_offset : SerializedBytecode → ℕ
global_table_offset bytecode = (32 + length bytecode.bytecode % 2 ^ 32) % 2 ^ 32

abbrev pub strings_offset : SerializedBytecode → ℕ
strings_offset bytecode = (global_table_offset bytecode + length bytecode.globals % 2 ^ 32) % 2 ^ 32

abbrev pub file_size : SerializedBytecode → ℕ
file_size bytecode = (strings_offset bytecode + length bytecode.strings % 2 ^ 32) % 2 ^ 32

-- the header behind the magic number and the checksum
abbrev pub version_fields : SerializedBytecode → List (ℕ × ℕ)
version_fields bytecode =
    (1, version_major)
    ∷ (1, version_minor)
    ∷ (1, version_patch)
    ∷ (2, bytecode.chunk_count % 2 ^ 16)
    ∷ (4, 32)
    ∷ (4, global_table_offset bytecode)
    ∷ (4, strings_offset bytecode)
    ∷ (4, file_size bytecode)
    ∷ (1, 0)
    ∷ (1, 0)
    ∷ (1, 0)
    ∷ []

abbrev pub file_widths : List ℕ
file_widths = 1 ∷ 1 ∷ 1 ∷ 1 ∷ 4 ∷ 1 ∷ 1 ∷ 1 ∷ 2 ∷ 4 ∷ 4 ∷ 4 ∷ 4 ∷ 1 ∷ 1 ∷ 1 ∷ []

-- the bytes from `start` to before `stop`
unfoldable pub section : ℕ → ℕ → List ℕ → List ℕ
section start stop buffer = take (stop - start) (drop start buffer)

-- a version that this program reads
unfoldable pub is_supported : ℕ → ℕ → ℕ → Bool
is_supported major minor patch =
    (major == version_major)
    && not (ltb version_minor minor || (minor == version_minor && ltb version_patch patch))

unfoldable pub is_compiled_lox_program : List ℕ → Bool
is_compiled_lox_program buffer =
    if ltb (length buffer) 32
    then false
    else (get_or buffer 0 0 == 0)
      && (get_or buffer 1 0 == 76)
      && (get_or buffer 2 0 == 79)
      && (get_or buffer 3 0 == 88)

-- the magic number of the fields that were read
abbrev pub is_magic : List ℕ → Bool
is_magic fields =
    (get_or fields 0 0 == 0)
    && (get_or fields 1 0 == 76)
    && (get_or fields 2 0 == 79)
    && (get_or fields 3 0 == 88)

module _ (packer : Packer) (checksum : Checksum) where
  unfoldable pub write : SerializedBytecode → List ℕ
  write bytecode =
      let header = encode_all packer (version_fields bytecode) in
      let crc =
        checksum.crc
          (checksum.crc (checksum.crc (checksum.crc 0 header) bytecode.bytecode) bytecode.globals)
          bytecode.strings in
      encode_all packer magic
      ++ (packer.encode 4 crc
          ++ (header ++ (bytecode.bytecode ++ (bytecode.globals ++ bytecode.strings))))

  unfoldable pub read : List ℕ → Option SerializedBytecode
  read buffer =
      let fields = decode_all packer file_widths buffer in
      if ltb (length buffer) 32
      then none
      else if not (is_magic fields)
      then none
      else if not (checksum.crc 0 (drop 8 buffer) == get_or fields 4 0)
      then none
      else if not (is_supported (get_or fields 5 0) (get_or fields 6 0) (get_or fields 7 0))
      then none
      else if not (get_or fields 12 0 == length buffer)
      then none
      else some (record {
        chunk_count = get_or fields 8 0;
        bytecode = section (get_or fields 9 0) (get_or fields 10 0) buffer;
        globals = section (get_or fields 10 0) (get_or fields 11 0) buffer;
        strings = drop (get_or fields 11 0) buffer;
      })
