-- ===== src/Serialization/Induction.antt =====
-- Every function that is written, by induction on the functions of its constants.
use cpp_lox.Prelude.{
  ℕ, ◌%◌, ◌^◌, ◌<◌, ◌≤◌, ◌≡◌, refl, sym, ap, ◌∙◌, subst, Bool, true, false, some, List, ◌++◌, leb,
  ◌==◌, length, arith,
}
use cpp_lox.Chunk.{LineInfo}
use cpp_lox.Serialization.Packer.{Packer, encode_all}
use cpp_lox.Serialization.Functions.{Text, Function, make, Constants, end, scalar, nested, count}
use cpp_lox.Serialization.Serializer.{
  Serializer, uint16_max, uint32_max, header_fields, write_debug, write_debug_information,
  finish_chunk, put_chunk, count_chunk, serialize_function, serialize_string, write_chunk_header,
  write_constant_pool, write_scalar, name_of,
}
use cpp_lox.Serialization.Bodies.{header, debug_part}
use cpp_lox.Serialization.Written.{
  Below, Below-append, Below-weaken, bind-some, none-if-some, some_eq, serialize_string-Stored,
}
use cpp_lox.Serialization.Scalars.{length-write_scalar, write_scalar-Good}
use cpp_lox.Serialization.Trees.{FunctionWritten, PoolWritten, Fits, PoolFits}
use cpp_lox.Serialization.Pools.{end-Written, scalar-after, nested-after}
use cpp_lox.Serialization.Nodes.{with_chunk, node-Written}

Below-moved :
    (low high : ℕ) (old new : List (ℕ × List ℕ))
    → new ≡ old
    → low ≤ high
    → Below low old
    → Below high new
Below-moved low high old new e h b = subst (Below high) (sym e) (Below-weaken low high old h b)

module _ (packer : Packer) where
  write_debug-part :
      (emit : Bool) (lines : List LineInfo) (debug : List ℕ)
      → write_debug packer emit lines ≡ some debug
      → debug ≡ debug_part packer emit lines
  unfolding write_debug_information
  write_debug-part true lines debug h =
      let (short, e) = none-if-some (leb uint32_max (length lines)) _ debug h in sym (some_eq _ _ e)
  write_debug-part false lines debug h = sym (some_eq _ _ h)

  header-same :
      (emit : Bool) (name : Text) (name_at arity upvalue_count id : ℕ) (constants : Constants)
      (code : List ℕ) (lines : List LineInfo)
      → arity < 256
      → upvalue_count < 2 ^ 16
      → count constants < 2 ^ 16
      → length code < 2 ^ 32
      → header_fields packer emit name_at (make name arity upvalue_count constants code lines) id
        ≡ header name_at arity upvalue_count (count constants) (length code) emit id
  header-same emit name name_at arity upvalue_count id constants code lines a u c l =
      let a' : arity % 256 ≡ arity = omega arith in
      let u' : upvalue_count % 2 ^ 16 ≡ upvalue_count = omega arith in
      let c' : count constants % 2 ^ 16 ≡ count constants = omega arith in
      let l' : length code % 2 ^ 32 ≡ length code = omega arith in rw (a', u', c', l')

  module _ (emit : Bool) where
    header-some :
        (f : Function) (name : Text) (id : ℕ) (s : Serializer) (r : List ℕ × Serializer)
        → write_chunk_header packer emit f id s ≡ some r
        → (o : ℕ) × (serialize_string packer emit (name_of packer emit f) s ≡ some (o, r.1))
          × (r.0 ≡ encode_all packer (header_fields packer emit o f id))
    unfolding write_chunk_header
    header-some f name id s r h =
        let ((o, after), run, e) =
          bind-some (serialize_string packer emit (name_of packer emit f) s) _ r h in
        let e' = some_eq _ r e in
        (
          o,
          run ∙ ap (λ (q : List ℕ × Serializer). some (o, q.1)) e',
          ap (λ (q : List ℕ × Serializer). q.0) (sym e'),
        )

    node-finished :
        (name : Text) (name_at arity upvalue_count id : ℕ) (constants : Constants)
        (pool code : List ℕ) (lines : List LineInfo) (pooled : Serializer) (r : ℕ × Serializer)
        → (head : List ℕ)
        → head
          ≡ encode_all packer
              (header name_at arity upvalue_count (count constants) (length code) emit id)
        → finish_chunk packer emit id head code lines (pool, pooled) ≡ some r
        → (
          id,
          with_chunk packer emit name name_at arity upvalue_count id constants pool code lines
              pooled,
        )
          ≡ r
    unfolding finish_chunk
    node-finished name name_at arity upvalue_count id constants pool code lines pooled r head same
          h =
        let (debug, run, e) = bind-some (write_debug packer emit lines) _ r h in
        subst
          (λ hd.
            (
              id,
              record pooled {
                chunks =
                    put_chunk id (hd ++ (pool ++ (code ++ debug_part packer emit lines)))
                      pooled.chunks;
              },
            )
            ≡ r)
          same
          (subst
            (λ d.
              (
                id,
                record pooled {
                  chunks = put_chunk id (head ++ (pool ++ (code ++ d))) pooled.chunks;
                },
              )
              ≡ r)
            (write_debug-part emit lines debug run) (some_eq _ r e))

    mutual
      unfolding serialize_function Fits

      pub serialize_function-Written :
          (f : Function) (s : Serializer) (r : ℕ × Serializer)
          → serialize_function packer emit f s ≡ some r
          → Fits f
          → Below s.chunk_counter s.chunks
          → s.chunk_counter ≤ uint16_max
          → FunctionWritten packer emit f s r.0 r.1
      serialize_function-Written (make name arity upvalue_count constants code lines) s r h
            (a, u, c, l, ls, inner) older limit =
          let id = s.chunk_counter in
          let f = make name arity upvalue_count constants code lines in
          let (free, h₁) = none-if-some (id == uint16_max) _ r h in
          let (head, written, h₂) =
            bind-some (write_chunk_header packer emit f id (count_chunk packer emit s)) _ r h₁ in
          let ((pool, pooled), h₃', h₃) =
            bind-some (write_constant_pool packer emit constants head.1) _ r h₂ in
          let (o, run, bytes) = header-some f name id (count_chunk packer emit s) head written in
          let stored =
            serialize_string-Stored packer emit name o (count_chunk packer emit s) head.1 run in
          let low : id < uint16_max = ground arith in
          let counted = stored.counter in
          let rest =
            write_constant_pool-Written constants head.1 (pool, pooled) h₃' inner
              (Below-moved id head.1.chunk_counter s.chunks head.1.chunks stored.chunks
                (omega arith) older)
              (omega arith) in
          subst (λ (q : ℕ × Serializer). FunctionWritten packer emit f s q.0 q.1)
            (node-finished name o arity upvalue_count id constants pool code lines pooled r head.0
              (bytes
                ∙ ap (encode_all packer)
                    (header-same emit name o arity upvalue_count id constants code lines a u c l))
              h₃)
            (node-Written packer emit name o arity upvalue_count id constants pool code lines s
              head.1 pooled (a, u, c, l, ls) refl low older stored rest)

      pub write_constant_pool-Written :
          (constants : Constants) (s : Serializer) (r : List ℕ × Serializer)
          → write_constant_pool packer emit constants s ≡ some r
          → PoolFits constants
          → Below s.chunk_counter s.chunks
          → s.chunk_counter ≤ uint16_max
          → PoolWritten packer emit constants s r.0 r.1
      write_constant_pool-Written end s r h fits older limit =
          subst (λ (q : List ℕ × Serializer). PoolWritten packer emit end s q.0 q.1) (some_eq _ r h)
            (end-Written packer emit s limit)
      write_constant_pool-Written (scalar v rest) s r h (fits, inner) older limit =
          let ((bytes, after), run, h₁) = bind-some (write_scalar packer emit v s) _ r h in
          let (more, run', e) = bind-some (write_constant_pool packer emit rest after) _ r h₁ in
          let good = write_scalar-Good packer emit v s (bytes, after) run fits in
          let pool =
            write_constant_pool-Written rest after more run' inner
              (Below-moved s.chunk_counter after.chunk_counter s.chunks after.chunks good.0.chunks
                (omega (arith, good.0.counter)) older)
              (omega (arith, good.0.counter)) in
          subst (λ (q : List ℕ × Serializer). PoolWritten packer emit (scalar v rest) s q.0 q.1)
            (some_eq _ r e)
            (scalar-after packer emit v rest s after more.1 bytes more.0
              (length-write_scalar packer emit v s (bytes, after) run) good.0.counter good pool)
      write_constant_pool-Written (nested f rest) s r h (fits, inner) older limit =
          let ((id, after), run, h₁) = bind-some (serialize_function packer emit f s) _ r h in
          let (more, run', e) = bind-some (write_constant_pool packer emit rest after) _ r h₁ in
          let one = serialize_function-Written f s (id, after) run fits older limit in
          let pool =
            write_constant_pool-Written rest after more run' inner
              (Below-moved after.chunk_counter after.chunk_counter (one.new ++ s.chunks)
                after.chunks one.written.chunks (omega arith)
                (Below-append after.chunk_counter one.new s.chunks one.written.below (
                  Below-weaken s.chunk_counter after.chunk_counter s.chunks one.written.counted
                    older)))
              one.written.limit in
          subst (λ (q : List ℕ × Serializer). PoolWritten packer emit (nested f rest) s q.0 q.1)
            (some_eq _ r e) (nested-after packer emit f rest s after more.1 id more.0 one pool)
