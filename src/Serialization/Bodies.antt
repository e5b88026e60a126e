-- ===== src/Serialization/Bodies.antt =====
-- A chunk behind its header, and the whole chunk, at any place of the block.
use cpp_lox.Prelude.{
  ℕ, ◌+◌, ◌*◌, ◌%◌, ◌^◌, ◌<◌, ◌≤◌, ◌≡◌, refl, ap, ◌∙◌, subst, Bool, true, false, none, some, List,
  [], ◌∷◌, ◌++◌, ltb, length, length-append, arith,
}
use mathlib.Core.List.{append_assoc}
use cpp_lox.Chunk.{LineInfo}
use cpp_lox.Serialization.Packer.{
  Packer, encode_all, length-encode_all, decode_all-encode_all, AllFit, values, drop-append,
  take-append,
}
use cpp_lox.Serialization.Functions.{Text, Function, make, Constants}
use cpp_lox.Serialization.Serializer.{flag_byte}
use cpp_lox.Serialization.Deserializer.{
  find, add32, read_debug, read_body, read_chunk, deserialize_constant_pool,
}
use cpp_lox.Serialization.Chunks.{LinesFit, drop_two, debug_bytes, debug_info-read}

-- the header of a chunk, as it is read
abbrev pub header : ℕ → ℕ → ℕ → ℕ → ℕ → Bool → ℕ → List (ℕ × ℕ)
header name arity upvalue_count pool_size code_length emit id =
    (1, b'F')
    ∷ (4, name)
    ∷ (1, arity)
    ∷ (2, upvalue_count)
    ∷ (2, pool_size)
    ∷ (4, code_length)
    ∷ (1, flag_byte emit)
    ∷ (4, id)
    ∷ (4, 0)
    ∷ (1, 0)
    ∷ []

-- the lines that are stored
abbrev pub stored : Bool → List LineInfo → List LineInfo
stored true lines = lines
stored false lines = []

module _ (packer : Packer) where
  abbrev pub debug_part : Bool → List LineInfo → List ℕ
  debug_part true lines = debug_bytes packer lines
  debug_part false lines = []

  debug-read :
      (emit : Bool) (lines : List LineInfo) (pre post : List ℕ) (size : ℕ)
      → LinesFit lines
      → length pre + length (debug_part emit lines) ≤ size
      → size < 2 ^ 32
      → read_debug packer
          (flag_byte emit)
          size
          (pre ++ (debug_part emit lines ++ post))
          (length pre)
        ≡ some (length pre + length (debug_part emit lines), stored emit lines)
  unfolding flag_byte
  debug-read true lines pre post size fit room small =
      debug_info-read packer lines pre post size fit room small
  debug-read false lines pre post size fit room small = ap (λ n. some (n, [])) (omega arith)

  -- the same at an offset that is given as a number
  debug-at :
      (emit : Bool) (lines : List LineInfo) (pre post : List ℕ) (size offset : ℕ)
      → LinesFit lines
      → length pre ≡ offset
      → offset + length (debug_part emit lines) ≤ size
      → size < 2 ^ 32
      → read_debug packer (flag_byte emit) size (pre ++ (debug_part emit lines ++ post)) offset
        ≡ some (offset + length (debug_part emit lines), stored emit lines)
  debug-at emit lines pre post size offset fit e room small =
      subst
        (λ k.
          read_debug packer (flag_byte emit) size (pre ++ (debug_part emit lines ++ post)) k
          ≡ some (k + length (debug_part emit lines), stored emit lines))
        e (debug-read emit lines pre post size fit (omega arith) small)

  module _ (strings : List (ℕ × Text)) (functions : List (ℕ × Function)) (size : ℕ)
      (small : size < 2 ^ 32) (emit : Bool) (name : Text) (name_at arity upvalue_count id : ℕ)
      (constants : Constants) (pool_size : ℕ) (pool code : List ℕ) (lines : List LineInfo) where
    body-read :
        (pre post : List ℕ)
        → length pool ≡ pool_size * 9
        → ((rest : List ℕ)
            → deserialize_constant_pool packer strings functions (pool ++ rest) pool_size
              ≡ some constants)
        → find id functions ≡ none
        → LinesFit lines
        → length pre + length pool + length code + length (debug_part emit lines) ≤ size
        → read_body packer strings size
            (pre ++ (pool ++ (code ++ (debug_part emit lines ++ post))))
            (length pre)
            functions
            (values (header name_at arity upvalue_count pool_size (length code) emit id))
            name
          ≡ some (
            length pre + length pool + length code + length (debug_part emit lines),
            (id, make name arity upvalue_count constants code (stored emit lines)) ∷ functions,
          )
    unfolding read_body add32
    body-read pre post long pool_read new fit room =
        let tail = code ++ (debug_part emit lines ++ post) in
        let buffer = pre ++ (pool ++ tail) in
        let done = (pre ++ pool) ++ code in
        let regroup : done ++ (debug_part emit lines ++ post) ≡ buffer =
          append_assoc (pre ++ pool) code (debug_part emit lines ++ post)
          ∙ append_assoc pre pool tail in
        let done_length : length done ≡ length pre + length pool + length code =
          omega (arith, length-append (pre ++ pool) code, length-append pre pool) in
        let debug_read : read_debug packer (flag_byte emit) size buffer
              (length pre + length pool + length code)
            ≡ some (
              length pre + length pool + length code + length (debug_part emit lines),
              stored emit lines,
            ) =
          subst
            (λ b.
              read_debug packer (flag_byte emit) size b (length pre + length pool + length code)
              ≡ some (
                length pre + length pool + length code + length (debug_part emit lines),
                stored emit lines,
              ))
            regroup
            (debug-at emit lines done post size (length pre + length pool + length code) fit
              done_length (omega arith) small) in
        let pool_end : (length pre + pool_size * 9) % 2 ^ 32 ≡ length pre + length pool =
          omega arith in
        let code_end : (length pre + length pool + length code) % 2 ^ 32
            ≡ length pre + length pool + length code =
          omega arith in
        let in_pool : ltb size (length pre + length pool) ≡ false = ground arith in
        let in_code : ltb size (length pre + length pool + length code) ≡ false = ground arith in
        rw (
          pool_end,
          code_end,
          in_pool,
          in_code,
          drop-append pre (pool ++ tail),
          pool_read tail,
          drop_two pre pool tail (length pool) refl,
          take-append code (debug_part emit lines ++ post),
          debug_read,
          new,
        )

    -- the same in a block and at an offset that are given
    body-at :
        (pre post buffer : List ℕ) (offset : ℕ)
        → length pre ≡ offset
        → pre ++ (pool ++ (code ++ (debug_part emit lines ++ post))) ≡ buffer
        → length pool ≡ pool_size * 9
        → ((rest : List ℕ)
            → deserialize_constant_pool packer strings functions (pool ++ rest) pool_size
              ≡ some constants)
        → find id functions ≡ none
        → LinesFit lines
        → offset + length pool + length code + length (debug_part emit lines) ≤ size
        → read_body packer strings size buffer offset functions
            (values (header name_at arity upvalue_count pool_size (length code) emit id))
            name
          ≡ some (
            offset + length pool + length code + length (debug_part emit lines),
            (id, make name arity upvalue_count constants code (stored emit lines)) ∷ functions,
          )
    body-at pre post buffer offset e same long pool_read new fit room =
        subst
          (λ b.
            read_body packer strings size b offset functions
              (values (header name_at arity upvalue_count pool_size (length code) emit id)) name
            ≡ some (
              offset + length pool + length code + length (debug_part emit lines),
              (id, make name arity upvalue_count constants code (stored emit lines)) ∷ functions,
            ))
          same
          (subst
            (λ k.
              read_body packer strings size
                (pre ++ (pool ++ (code ++ (debug_part emit lines ++ post)))) k functions
                (values (header name_at arity upvalue_count pool_size (length code) emit id)) name
              ≡ some (
                k + length pool + length code + length (debug_part emit lines),
                (id, make name arity upvalue_count constants code (stored emit lines)) ∷ functions,
              ))
            e (body-read pre post long pool_read new fit (omega arith)))

    pub chunk-read :
        (pre post : List ℕ)
        → AllFit (header name_at arity upvalue_count pool_size (length code) emit id)
        → find name_at strings ≡ some name
        → length pool ≡ pool_size * 9
        → ((rest : List ℕ)
            → deserialize_constant_pool packer strings functions (pool ++ rest) pool_size
              ≡ some constants)
        → find id functions ≡ none
        → LinesFit lines
        → length pre + 24 + length pool + length code + length (debug_part emit lines) ≤ size
        → read_chunk packer strings size
            (pre
              ++ (encode_all packer
                    (header name_at arity upvalue_count pool_size (length code) emit id)
                  ++ (pool ++ (code ++ (debug_part emit lines ++ post)))))
            (length pre)
            functions
          ≡ some (
            length pre + 24 + length pool + length code + length (debug_part emit lines),
            (id, make name arity upvalue_count constants code (stored emit lines)) ∷ functions,
          )
    unfolding read_chunk add32
    chunk-read pre post fits named long pool_read new fit room =
        let fields = header name_at arity upvalue_count pool_size (length code) emit id in
        let head = encode_all packer fields in
        let tail = pool ++ (code ++ (debug_part emit lines ++ post)) in
        let start : (length pre + 24) % 2 ^ 32 ≡ length pre + 24 = omega arith in
        let in_head : ltb size (length pre + 24) ≡ false = ground arith in
        let body =
          body-at (pre ++ head) post (pre ++ (head ++ tail)) (length pre + 24)
            (omega (arith, length-append pre head, length-encode_all packer fields))
            (append_assoc pre head tail) long pool_read new fit room in
        rw
          (
            start,
            in_head,
            drop-append pre (head ++ tail),
            decode_all-encode_all packer fields tail fits,
            named,
          )
          body
