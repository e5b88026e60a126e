-- ===== src/Serialization/Deserializer.antt =====
-- src/serialization/deserializer.cpp. `none` is an exception, and in the two loops over a block also
-- a run of more rounds than the block has bytes, which an overflow of the offset can lead to.
-- Offsets are `uint32_t`; a read past the block, which an overflow can lead to too, reads what
-- `decode` makes of fewer bytes.
use cpp_lox.Prelude.{
  ℕ, zero, suc, ◌+◌, ◌*◌, ◌%◌, ◌^◌, Bool, not, Option, none, some, List, [], ◌∷◌, ltb, leb, ◌==◌,
  if◌then◌else◌, length, get_or, take, drop, set, ◌>>=◌,
}
use cpp_lox.HashMap.Keys.{Key, Default}
use cpp_lox.Chunk.{LineInfo}
use cpp_lox.Context.{Context, get_global, get_internal_value}
use cpp_lox.Serialization.Packer.{Packer, decode_all}
use cpp_lox.Serialization.Functions.{
  Text, nil, boolean, number_real, number_int, string, Function, make, Constants, end, scalar,
  nested,
}
use cpp_lox.Serialization.Serializer.{SerializedBytecode, uint32_max, uint16_max}

-- the maps `strings` and `functions`
unfoldable pub find {ℓ} : {A : Type ℓ} → ℕ → List (ℕ × A) → Option A
find k [] = none
find k ((j, a) ∷ rest) = if j == k then some a else find k rest

-- a sum of two `uint32_t`
unfoldable pub add32 : ℕ → ℕ → ℕ
add32 a b = (a + b) % 2 ^ 32

-- the function is new, or else its id stands twice
abbrev pub insert_new :
    ℕ → ℕ → Function → List (ℕ × Function) → Option Function → Option (ℕ × List (ℕ × Function))
insert_new offset id f functions (some old) = none
insert_new offset id f functions none = some (offset, (id, f) ∷ functions)

-- a constant, from its tag and its eight bytes
unfoldable pub constant_of :
    List (ℕ × Text) → List (ℕ × Function) → ℕ → ℕ → Option (Constants → Constants)
constant_of strings functions type value =
    if type == b'N'
    then some (scalar nil)
    else if type == b'B'
    then some (scalar (boolean (not (value == 0))))
    else if type == b'R'
    then some (scalar (number_real value))
    else if type == b'I'
    then some (scalar (number_int value))
    else if type == b'S'
    then (if leb uint32_max value
        then none
        else (find value strings >>= λ t. some (scalar (string t))))
    else if type == b'F'
    then (if leb uint32_max value then none else (find value functions >>= λ f. some (nested f)))
    else none

module _ ⦃key : Key Text⦄ ⦃index : Default ℕ⦄ where
  -- `context->get_internal_value(i).is_const = is_const`
  unfoldable pub set_const : ℕ → Bool → Context Text → Context Text
  set_const i is_const context = record context {
    values = set context.values i (record (get_internal_value context i) { is_const = is_const });
  }

  abbrev pub keep_index : ℕ → Bool → ℕ × Context Text → Option (Context Text)
  keep_index i is_const (found, context) =
      if found == i then some (set_const found is_const context) else none

module _ (packer : Packer) where
  -- the body of the loop of `deserialize_strings`: the offset behind the string, and the string
  unfoldable pub read_string : ℕ → List ℕ → ℕ → Option (ℕ × Text)
  unfolding add32
  read_string size buffer offset =
      let start = add32 offset 4 in
      let string_length = packer.decode 4 (drop offset buffer) in
      if ltb size start
      then none
      else if ltb size (add32 start string_length)
      then none
      else some (add32 start string_length, take string_length (drop start buffer))

  unfoldable pub read_strings : ℕ → ℕ → List ℕ → ℕ → List (ℕ × Text) → Option (List (ℕ × Text))
  read_strings zero size buffer offset strings = if ltb offset size then none else some strings
  read_strings (suc rounds) size buffer offset strings =
      if ltb offset size
      then (read_string size buffer offset >>= λ r.
          read_strings rounds size buffer r.0 ((offset, r.1) ∷ strings))
      else some strings

  unfoldable pub deserialize_strings : List ℕ → Option (List (ℕ × Text))
  deserialize_strings buffer =
      let size = length buffer in
      let header = decode_all packer (4 ∷ 4 ∷ []) buffer in
      if ltb size 8
      then none
      else if not (size == get_or header 1 0)
      then none
      else read_strings size size buffer 8 []

  unfoldable pub deserialize_constant_pool :
      List (ℕ × Text) → List (ℕ × Function) → List ℕ → ℕ → Option Constants
  deserialize_constant_pool strings functions buffer zero = some end
  deserialize_constant_pool strings functions buffer (suc n) =
      let fields = decode_all packer (1 ∷ 8 ∷ []) buffer in
      constant_of strings functions (get_or fields 0 0) (get_or fields 1 0) >>= λ add.
      deserialize_constant_pool strings functions (drop 9 buffer) n >>= λ rest. some (add rest)

  unfoldable pub read_lines : ℕ → List ℕ → List LineInfo
  read_lines zero buffer = []
  read_lines (suc n) buffer =
      let fields = decode_all packer (4 ∷ 4 ∷ []) buffer in
      record { offset = get_or fields 0 0; line_number = get_or fields 1 0 }
      ∷ read_lines n (drop 8 buffer)

  -- the offset behind the debug information, and the lines
  unfoldable pub deserialize_debug_info : ℕ → List ℕ → ℕ → Option (ℕ × List LineInfo)
  unfolding add32
  deserialize_debug_info size buffer offset =
      let start = add32 offset 8 in
      let pairs = get_or (decode_all packer (4 ∷ 4 ∷ []) (drop offset buffer)) 0 0 in
      if ltb size start
      then none
      else if ltb size (add32 start (pairs * 8 % 2 ^ 32))
      then none
      else some (add32 start (pairs * 8 % 2 ^ 32), read_lines pairs (drop start buffer))

  abbrev pub header_widths : List ℕ
  header_widths = 1 ∷ 4 ∷ 1 ∷ 2 ∷ 2 ∷ 4 ∷ 1 ∷ 4 ∷ 4 ∷ 1 ∷ []

  -- the debug information of a chunk, if it has any
  abbrev pub read_debug : ℕ → ℕ → List ℕ → ℕ → Option (ℕ × List LineInfo)
  read_debug present size buffer offset =
      if present == 1 then deserialize_debug_info size buffer offset else some (offset, [])

  -- what follows the name of a chunk: the constants, the code and the lines
  unfoldable pub read_body :
      List (ℕ × Text)
      → ℕ
      → List ℕ
      → ℕ
      → List (ℕ × Function)
      → List ℕ
      → Text
      → Option (ℕ × List (ℕ × Function))
  unfolding add32
  read_body strings size buffer offset functions header name =
      let pool_size = get_or header 4 0 in
      let code_length = get_or header 5 0 in
      let id = get_or header 7 0 in
      let pool_end = add32 offset (pool_size * 9) in
      let code_end = add32 pool_end code_length in
      if ltb size pool_end
      then none
      else (deserialize_constant_pool strings functions (drop offset buffer) pool_size >>= λ pool.
          if ltb size code_end
          then none
          else (read_debug (get_or header 6 0) size buffer code_end >>= λ debug.
              insert_new debug.0 id
                (make name (get_or header 2 0) (get_or header 3 0) pool
                  (take code_length (drop pool_end buffer)) debug.1)
                functions (find id functions)))

  -- the body of the loop of `deserialize_chunks`: the offset behind the chunk, and the functions
  unfoldable pub read_chunk :
      List (ℕ × Text) → ℕ → List ℕ → ℕ → List (ℕ × Function) → Option (ℕ × List (ℕ × Function))
  unfolding add32
  read_chunk strings size buffer offset functions =
      let header = decode_all packer header_widths (drop offset buffer) in
      if ltb size (add32 offset 24)
      then none
      else if not (get_or header 0 0 == b'F')
      then none
      else (find (get_or header 1 0) strings >>= λ name.
          read_body strings size buffer (add32 offset 24) functions header name)

  unfoldable pub read_chunks :
      ℕ → List (ℕ × Text) → ℕ → List ℕ → ℕ → List (ℕ × Function) → Option (List (ℕ × Function))
  read_chunks zero strings size buffer offset functions =
      if ltb offset size then none else some functions
  read_chunks (suc rounds) strings size buffer offset functions =
      if ltb offset size
      then (read_chunk strings size buffer offset functions >>= λ r.
          read_chunks rounds strings size buffer r.0 r.1)
      else some functions

  unfoldable pub deserialize_chunks : List (ℕ × Text) → List ℕ → Option (List (ℕ × Function))
  deserialize_chunks strings buffer =
      read_chunks (length buffer) strings (length buffer) buffer 0 []

  module _ ⦃key : Key Text⦄ ⦃index : Default ℕ⦄ where
    -- the loop over the entries, the first of which is number `i`
    unfoldable pub read_globals :
        List (ℕ × Text) → ℕ → ℕ → List ℕ → Context Text → Option (Context Text)
    read_globals strings zero i buffer context = some context
    read_globals strings (suc rounds) i buffer context =
        let fields = decode_all packer (4 ∷ 1 ∷ 2 ∷ 1 ∷ []) buffer in
        find (get_or fields 0 0) strings >>= λ name. get_global context name >>= λ r.
        keep_index i (not (get_or fields 1 0 == 0)) r >>= λ added.
        read_globals strings rounds (i + 1) (drop 8 buffer) added

    unfoldable pub deserialize_global_table :
        List (ℕ × Text) → List ℕ → Context Text → Option (Context Text)
    deserialize_global_table strings buffer context =
        let entries = get_or (decode_all packer (2 ∷ 2 ∷ []) buffer) 0 0 in
        if ltb (length buffer) 4
        then none
        else if not (length buffer == entries * 8 + 4)
        then none
        else read_globals strings entries 0 (drop 4 buffer) context

    -- the script, and the context with the globals
    unfoldable pub deserialize_program :
        SerializedBytecode → Context Text → Option (Function × Context Text)
    deserialize_program bytecode context =
        if leb uint32_max (length bytecode.strings)
        then none
        else (deserialize_strings bytecode.strings >>= λ strings.
            if leb (8 * uint16_max) (length bytecode.globals)
            then none
            else (deserialize_global_table strings bytecode.globals context >>= λ loaded.
                if leb uint32_max (length bytecode.bytecode)
                then none
                else (deserialize_chunks strings bytecode.bytecode >>= λ functions.
                    find 0 functions >>= λ script. some (script, loaded))))
