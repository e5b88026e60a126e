-- ===== src/Serialization/Serializer.antt =====
-- src/serialization/serializer.cpp. `none` is an exception. A buffer that the code sizes first and
-- then fills is the list of what is written to it.
use cpp_lox.Prelude.{
  ℕ, zero, suc, ◌+◌, ◌-◌, ◌%◌, ◌^◌, Bool, true, false, not, Option, none, some, List, [], ◌∷◌, ◌++◌,
  ltb, leb, ◌==◌, if◌then◌else◌, length, replicate, drop, ◌>>=◌,
}
use cpp_lox.Chunk.{LineInfo}
use cpp_lox.Serialization.Packer.{Packer, encode_all}
use cpp_lox.Serialization.Functions.{
  Text, Scalar, nil, other, boolean, number_real, number_int, string, Function, make, Constants,
  end, scalar, nested, count,
}
use cpp_lox.Execute.Values.{same_bytes}
use cpp_lox.HashMap.Keys.{Key, Default}
use cpp_lox.Context.{Context, get_name, get_internal_value}

pub record Serializer : Type 0 where
  pub strings_block : List ℕ
  pub strings_offset : List (Text × ℕ)
  pub chunks : List (ℕ × List ℕ)
  pub chunk_counter : ℕ
  pub string_count : ℕ

pub record SerializedBytecode : Type 0 where
  pub chunk_count : ℕ
  pub bytecode : List ℕ
  pub strings : List ℕ
  pub globals : List ℕ

abbrev pub uint32_max : ℕ
uint32_max = 2 ^ 32 - 1

abbrev pub uint16_max : ℕ
uint16_max = 2 ^ 16 - 1

-- `strings_offset.find`
unfoldable pub find_string : Text → List (Text × ℕ) → Option ℕ
find_string t [] = none
find_string t ((u, offset) ∷ rest) = if same_bytes u t then some offset else find_string t rest

-- `chunks[id] = bytes`: the map, the greatest id first, as it is read in the end
unfoldable pub put_chunk : ℕ → List ℕ → List (ℕ × List ℕ) → List (ℕ × List ℕ)
put_chunk id bytes [] = (id, bytes) ∷ []
put_chunk id bytes ((j, old) ∷ rest) =
    let later = put_chunk id bytes rest in
    if ltb id j
    then (j, old) ∷ later
    else if id == j
    then (id, bytes) ∷ rest
    else (id, bytes) ∷ (j, old) ∷ rest

unfoldable pub flag_byte : Bool → ℕ
flag_byte true = 1
flag_byte false = 0

-- the chunks one after the other
unfoldable pub concat : List (ℕ × List ℕ) → List ℕ
concat [] = []
concat ((id, bytes) ∷ rest) = bytes ++ concat rest

module _ ⦃key : Key Text⦄ ⦃value : Default ℕ⦄ where
  -- `context->names[i]` and `context->values[i].is_const`, from `i` on
  unfoldable pub symbols : Context Text → ℕ → ℕ → List (Text × Bool)
  symbols context i zero = []
  symbols context i (suc n) =
      (get_name context i, (get_internal_value context i).is_const) ∷ symbols context (suc i) n

module _ (packer : Packer) where
  unfoldable pub write_lines : List LineInfo → List ℕ
  write_lines [] = []
  write_lines (line ∷ lines) =
      encode_all packer ((4, line.offset % 2 ^ 32) ∷ (4, line.line_number % 2 ^ 32) ∷ [])
      ++ write_lines lines

  unfoldable pub write_debug_information : List LineInfo → Option (List ℕ)
  write_debug_information lines =
      if leb uint32_max (length lines)
      then none
      else some (encode_all packer ((4, length lines) ∷ (4, 0) ∷ []) ++ write_lines lines)

module _ (packer : Packer) (emit_debug_information : Bool) where
  -- the string is added to the block
  unfoldable pub add_string : Text → Serializer → Option (ℕ × Serializer)
  add_string t s =
      if ltb uint32_max (length s.strings_block)
      then none
      else if ltb uint32_max (length t)
      then none
      else some (
        length s.strings_block,
        record s {
          strings_block = s.strings_block ++ (packer.encode 4 (length t) ++ t);
          strings_offset = (t, length s.strings_block) ∷ s.strings_offset;
          string_count = (s.string_count + 1) % 2 ^ 32;
        },
      )

  abbrev pub or_add_string : Text → Serializer → Option ℕ → Option (ℕ × Serializer)
  or_add_string t s (some offset) = some (offset, s)
  or_add_string t s none = add_string t s

  unfoldable pub serialize_string : Text → Serializer → Option (ℕ × Serializer)
  serialize_string t s = or_add_string t s (find_string t s.strings_offset)

  -- the widths and the values of a chunk's header
  abbrev pub header_fields : ℕ → Function → ℕ → List (ℕ × ℕ)
  header_fields name (make text arity upvalue_count constants code lines) id =
      (1, b'F')
      ∷ (4, name)
      ∷ (1, arity % 256)
      ∷ (2, upvalue_count % 2 ^ 16)
      ∷ (2, count constants % 2 ^ 16)
      ∷ (4, length code % 2 ^ 32)
      ∷ (1, flag_byte emit_debug_information)
      ∷ (4, id)
      ∷ (4, 0)
      ∷ (1, 0)
      ∷ []

  abbrev pub name_of : Function → Text
  name_of (make name arity upvalue_count constants code lines) = name

  unfoldable pub write_chunk_header : Function → ℕ → Serializer → Option (List ℕ × Serializer)
  write_chunk_header f id s =
      serialize_string (name_of f) s >>= λ r. some (encode_all packer (header_fields r.0 f id), r.1)

  -- the tag and the eight bytes of a constant
  unfoldable pub write_scalar : Scalar → Serializer → Option (List ℕ × Serializer)
  write_scalar nil s = some (b'N' ∷ replicate 8 0, s)
  write_scalar (boolean b) s = some (b'B' ∷ (packer.encode 1 (flag_byte b) ++ replicate 7 0), s)
  write_scalar (number_real d) s = some (b'R' ∷ packer.encode 8 d, s)
  write_scalar (number_int i) s = some (b'I' ∷ packer.encode 8 i, s)
  write_scalar (string t) s = serialize_string t s >>= λ r. some (b'S' ∷ packer.encode 8 r.0, r.1)
  write_scalar other s = none

  abbrev pub write_debug : List LineInfo → Option (List ℕ)
  write_debug lines =
      if emit_debug_information then write_debug_information packer lines else some []

  -- the chunk, once its constants are written
  unfoldable pub finish_chunk :
      ℕ → List ℕ → List ℕ → List LineInfo → List ℕ × Serializer → Option (ℕ × Serializer)
  finish_chunk id header code lines (pool, s) = write_debug lines >>= λ debug.
      some (id, record s { chunks = put_chunk id (header ++ (pool ++ (code ++ debug))) s.chunks })

  abbrev pub count_chunk : Serializer → Serializer
  count_chunk s = record s { chunk_counter = s.chunk_counter + 1 }

  unfoldable mutual
    pub serialize_function : Function → Serializer → Option (ℕ × Serializer)
    serialize_function (make name arity upvalue_count constants code lines) s =
        if s.chunk_counter == uint16_max
        then none
        else (write_chunk_header (make name arity upvalue_count constants code lines)
              s.chunk_counter (count_chunk s)
            >>= λ h. write_constant_pool constants h.1 >>= λ p.
                finish_chunk s.chunk_counter h.0 code lines p)

    pub write_constant_pool : Constants → Serializer → Option (List ℕ × Serializer)
    write_constant_pool end s = some ([], s)
    write_constant_pool (scalar v rest) s = write_scalar v s >>= λ r.
        write_constant_pool rest r.1 >>= λ more. some (r.0 ++ more.0, more.1)
    write_constant_pool (nested f rest) s = serialize_function f s >>= λ r.
        write_constant_pool rest r.1 >>= λ more.
        some ((b'F' ∷ packer.encode 8 r.0) ++ more.0, more.1)

  -- the entries of the symbol table: the names and whether they are constant
  unfoldable pub write_symbols : List (Text × Bool) → Serializer → Option (List ℕ × Serializer)
  write_symbols [] s = some ([], s)
  write_symbols ((name, is_const) ∷ rest) s = serialize_string name s >>= λ r.
      write_symbols rest r.1 >>= λ more. some (
        encode_all packer ((4, r.0) ∷ (1, flag_byte is_const) ∷ (2, 0) ∷ (1, 0) ∷ []) ++ more.0,
        more.1,
      )

  unfoldable pub serialize_symbol_table :
      List (Text × Bool) → Serializer → Option (List ℕ × Serializer)
  serialize_symbol_table names s = write_symbols names s >>= λ r.
      some (encode_all packer ((2, length names % 2 ^ 16) ∷ (2, 0) ∷ []) ++ r.0, r.1)

  -- the first eight bytes of the block are left free for its header
  unfoldable pub write_string_block_header : Serializer → Option (List ℕ)
  write_string_block_header s =
      if leb uint32_max (length s.strings_block)
      then none
      else some (
          encode_all packer ((4, s.string_count) ∷ (4, length s.strings_block) ∷ [])
          ++ drop 8 s.strings_block)

  abbrev pub empty_serializer : Serializer
  empty_serializer = record {
    strings_block = replicate 8 0;
    strings_offset = [];
    chunks = [];
    chunk_counter = 0;
    string_count = 0;
  }

  -- the four parts of the result
  abbrev pub serialized : Serializer → List ℕ → List ℕ → SerializedBytecode
  serialized s strings globals = record {
    chunk_count = s.chunk_counter;
    bytecode = concat s.chunks;
    strings = strings;
    globals = globals;
  }

  module _ ⦃key : Key Text⦄ ⦃value : Default ℕ⦄ where
    unfoldable pub serialize_program : Function → Context Text → Option SerializedBytecode
    serialize_program f context = serialize_function f empty_serializer >>= λ script.
        if not (script.0 == 0)
        then none
        else (serialize_symbol_table (symbols context 0 (length context.names)) script.1
            >>= λ globals. write_string_block_header globals.1 >>= λ strings.
                some (serialized globals.1 strings globals.0))
