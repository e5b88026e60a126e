-- ===== src/Serialization/Layout.antt =====
-- Each operation of the serializer keeps the layout of the block of the strings.
use cpp_lox.Prelude.{ℕ, ◌≡◌, refl, ◌∙◌, subst, Bool, some, List, [], ◌∷◌, ◌==◌, replicate, arith}
use cpp_lox.Chunk.{LineInfo}
use cpp_lox.Serialization.Packer.{Packer}
use cpp_lox.Serialization.Functions.{
  Text, Scalar, nil, other, boolean, number_real, number_int, string, Function, make, Constants,
  end, scalar, nested,
}
use cpp_lox.Serialization.Serializer.{
  Serializer, uint16_max, name_of, write_debug, finish_chunk, count_chunk, serialize_function,
  serialize_string, write_chunk_header, write_constant_pool, write_scalar, write_symbols,
  serialize_symbol_table, empty_serializer,
}
use cpp_lox.Serialization.Written.{
  Extends, Extends-trans, bind-some, none-if-some, some_eq, serialize_string-Stored,
}
use cpp_lox.Serialization.Blocks.{Laid, BlockLaid, serialize_string-BlockLaid}

module _ (packer : Packer) (emit : Bool) where
  -- the state behind the result of an operation is laid out
  abbrev Ends : {A : Type 0} → A × Serializer → Type 0
  Ends r = BlockLaid packer r.1

  pub empty-BlockLaid : BlockLaid packer (empty_serializer packer emit)
  unfolding Laid replicate
  empty-BlockLaid = record { body = []; laid = refl; block = refl; counted = omega arith }

  write_scalar-BlockLaid :
      (v : Scalar) (s : Serializer) (r : List ℕ × Serializer)
      → write_scalar packer emit v s ≡ some r
      → BlockLaid packer s
      → BlockLaid packer r.1
  unfolding write_scalar
  write_scalar-BlockLaid nil s r h b = subst Ends (some_eq _ r h) b
  write_scalar-BlockLaid (boolean v) s r h b = subst Ends (some_eq _ r h) b
  write_scalar-BlockLaid (number_real v) s r h b = subst Ends (some_eq _ r h) b
  write_scalar-BlockLaid (number_int v) s r h b = subst Ends (some_eq _ r h) b
  write_scalar-BlockLaid other s r h b = cc
  write_scalar-BlockLaid (string t) s r h b =
      let (q, run, e) = bind-some (serialize_string packer emit t s) _ r h in
      subst Ends (some_eq _ r e) (serialize_string-BlockLaid packer emit t s q run b)

  write_chunk_header-BlockLaid :
      (f : Function) (id : ℕ) (s : Serializer) (r : List ℕ × Serializer)
      → write_chunk_header packer emit f id s ≡ some r
      → BlockLaid packer s
      → BlockLaid packer r.1
  unfolding write_chunk_header
  write_chunk_header-BlockLaid f id s r h b =
      let (q, run, e) = bind-some (serialize_string packer emit (name_of packer emit f) s) _ r h in
      subst Ends (some_eq _ r e)
        (serialize_string-BlockLaid packer emit (name_of packer emit f) s q run b)

  finish_chunk-BlockLaid :
      (id : ℕ) (header code : List ℕ) (lines : List LineInfo) (p : List ℕ × Serializer)
      (r : ℕ × Serializer)
      → finish_chunk packer emit id header code lines p ≡ some r
      → BlockLaid packer p.1
      → BlockLaid packer r.1
  unfolding finish_chunk
  finish_chunk-BlockLaid id header code lines (pool, s) r h b =
      let (debug, run, e) = bind-some (write_debug packer emit lines) _ r h in
      subst Ends (some_eq _ r e)
        (record { body = b.body; laid = b.laid; block = b.block; counted = b.counted })

  mutual
    unfolding serialize_function

    pub serialize_function-BlockLaid :
        (f : Function) (s : Serializer) (r : ℕ × Serializer)
        → serialize_function packer emit f s ≡ some r
        → BlockLaid packer s
        → BlockLaid packer r.1
    serialize_function-BlockLaid (make name arity upvalue_count constants code lines) s r h b =
        let (free, h₁) = none-if-some (s.chunk_counter == uint16_max) _ r h in
        let (head, run, h₂) =
          bind-some
            (write_chunk_header packer emit (make name arity upvalue_count constants code lines)
              s.chunk_counter (count_chunk packer emit s))
            _ r h₁ in
        let (p, run', h₃) = bind-some (write_constant_pool packer emit constants head.1) _ r h₂ in
        let named =
          write_chunk_header-BlockLaid (make name arity upvalue_count constants code lines)
            s.chunk_counter (count_chunk packer emit s) head run
            (record { body = b.body; laid = b.laid; block = b.block; counted = b.counted }) in
        finish_chunk-BlockLaid s.chunk_counter head.0 code lines p r h₃
          (write_constant_pool-BlockLaid constants head.1 p run' named)

    pub write_constant_pool-BlockLaid :
        (constants : Constants) (s : Serializer) (r : List ℕ × Serializer)
        → write_constant_pool packer emit constants s ≡ some r
        → BlockLaid packer s
        → BlockLaid packer r.1
    write_constant_pool-BlockLaid end s r h b = subst Ends (some_eq _ r h) b
    write_constant_pool-BlockLaid (scalar v rest) s r h b =
        let (one, run, h₁) = bind-some (write_scalar packer emit v s) _ r h in
        let (more, run', e) = bind-some (write_constant_pool packer emit rest one.1) _ r h₁ in
        subst Ends (some_eq _ r e) (
          write_constant_pool-BlockLaid rest one.1 more run' (write_scalar-BlockLaid v s one run b))
    write_constant_pool-BlockLaid (nested f rest) s r h b =
        let (one, run, h₁) = bind-some (serialize_function packer emit f s) _ r h in
        let (more, run', e) = bind-some (write_constant_pool packer emit rest one.1) _ r h₁ in
        subst Ends (some_eq _ r e) (
          write_constant_pool-BlockLaid rest one.1 more run'
            (serialize_function-BlockLaid f s one run b))

  -- the symbol table leaves the chunks, and keeps the layout
  pub record SymbolsWritten (s after : Serializer) : Type 0 where
    pub counter : after.chunk_counter ≡ s.chunk_counter
    pub chunks : after.chunks ≡ s.chunks
    pub extends : Extends s.strings_offset after.strings_offset
    pub laid : BlockLaid packer after

  pub write_symbols-Written :
      (names : List (Text × Bool)) (s : Serializer) (r : List ℕ × Serializer)
      → write_symbols packer emit names s ≡ some r
      → BlockLaid packer s
      → SymbolsWritten s r.1
  unfolding write_symbols
  write_symbols-Written [] s r h b =
      subst (λ (q : List ℕ × Serializer). SymbolsWritten s q.1) (some_eq _ r h)
        (record { counter = refl; chunks = refl; extends = λ t o e. e; laid = b })
  write_symbols-Written ((name, is_const) ∷ rest) s r h b =
      let ((o, one), run, h₁) = bind-some (serialize_string packer emit name s) _ r h in
      let (more, run', e) = bind-some (write_symbols packer emit rest one) _ r h₁ in
      let stored = serialize_string-Stored packer emit name o s one run in
      let next =
        write_symbols-Written rest one more run'
          (serialize_string-BlockLaid packer emit name s (o, one) run b) in
      subst (λ (q : List ℕ × Serializer). SymbolsWritten s q.1) (some_eq _ r e)
        (record {
          counter = next.counter ∙ stored.counter;
          chunks = next.chunks ∙ stored.chunks;
          extends =
              Extends-trans s.strings_offset one.strings_offset more.1.strings_offset stored.extends
                next.extends;
          laid = next.laid;
        })

  pub serialize_symbol_table-Written :
      (names : List (Text × Bool)) (s : Serializer) (r : List ℕ × Serializer)
      → serialize_symbol_table packer emit names s ≡ some r
      → BlockLaid packer s
      → SymbolsWritten s r.1
  unfolding serialize_symbol_table
  serialize_symbol_table-Written names s r h b =
      let (q, run, e) = bind-some (write_symbols packer emit names s) _ r h in
      subst (λ (p : List ℕ × Serializer). SymbolsWritten s p.1) (some_eq _ r e)
        (write_symbols-Written names s q run b)
