-- ===== src/Serialization/RoundTrip.antt =====
-- A program that is written, and read back.
use cpp_lox.Prelude.{
  ℕ, zero, suc, ◌+◌, ◌*◌, ◌^◌, ◌<◌, ◌≤◌, ◌≡◌, refl, sym, ap, ◌∙◌, subst, Bool, false, some, List,
  [], ◌∷◌, ◌++◌, leb, ◌==◌, not, length, arith, inl, inr, Bool-cases,
}
use cpp_lox.HashMap.Keys.{Key, Default}
use cpp_lox.Context.{Context, get_name, get_internal_value}
use cpp_lox.Context.Names.{IsContext}
use cpp_lox.Serialization.Globals.{Holds, symbols-AllNew}
use cpp_lox.Serialization.SymbolsRead.{Read, table-read}
use cpp_lox.Serialization.Packer.{Packer}
use cpp_lox.Serialization.Functions.{Text, Function}
use cpp_lox.Serialization.Serializer.{
  Serializer, SerializedBytecode, concat, uint32_max, uint16_max, serialize_function,
  serialize_symbol_table, write_string_block_header, serialize_program, symbols, serialized,
  empty_serializer,
}
use cpp_lox.Serialization.Deserializer.{find, deserialize_chunks, deserialize_program}
use cpp_lox.Serialization.Written.{Agrees, Agrees-before, bind-some, none-if-some, some_eq}
use cpp_lox.Serialization.Steps.{Steps, read_chunks-Steps}
use cpp_lox.Serialization.Trees.{FunctionWritten, Fits, loaded}
use cpp_lox.Serialization.Induction.{serialize_function-Written}
use cpp_lox.Serialization.Blocks.{found_strings}
use cpp_lox.Serialization.StringsRead.{block-read}
use cpp_lox.Serialization.Layout.{
  empty-BlockLaid, serialize_function-BlockLaid, serialize_symbol_table-Written,
}

chunks_at_end : (chunks : List (ℕ × List ℕ)) → chunks ++ [] ≡ chunks
chunks_at_end [] = refl
chunks_at_end (c ∷ chunks) = ap (λ cs. c ∷ cs) (chunks_at_end chunks)

module _ (packer : Packer) (emit : Bool) where
  chunks-read :
      (f : Function) (id : ℕ) (s : Serializer) (strings : List (ℕ × Text))
      → FunctionWritten packer emit f (empty_serializer packer emit) id s
      → Agrees strings s.strings_offset
      → length (concat s.chunks) < 2 ^ 32
      → (functions : List (ℕ × Function)) × (deserialize_chunks packer strings (concat s.chunks)
          ≡ some functions)
        × (find 0 functions ≡ some (loaded emit f))
  unfolding deserialize_chunks find
  chunks-read f id s strings w agrees small =
      let all : s.chunks ≡ w.new = w.written.chunks ∙ chunks_at_end w.new in
      let r = w.readable strings [] agrees (λ k from to. refl) in
      let read =
        read_chunks-Steps packer strings [] r.after s.chunks [] (length (concat s.chunks))
          (length (concat s.chunks))
          (subst (λ c. Steps packer strings [] c r.after) (sym all) r.steps) (omega arith)
          (omega arith) small in
      (r.after, read, ap (λ k. find k r.after) (sym w.numbered) ∙ r.found)

  module _ ⦃key : Key Text⦄ ⦃value : Default ℕ⦄ where
    -- the globals of `after` have the names and are constant as in `context`
    pub record Restored (context after : Context Text) : Type 0 where
      pub is_context : IsContext after
      pub size : length after.values ≡ length context.values
      pub names : (i : ℕ) → i < length context.values → get_name after i ≡ get_name context i
      pub constants :
          (i : ℕ)
          → i < length context.values
          → (get_internal_value after i).is_const ≡ (get_internal_value context i).is_const

    length-symbols : (context : Context Text) (i n : ℕ) → length (symbols context i n) ≡ n
    unfolding symbols
    length-symbols context i zero = refl
    length-symbols context i (suc n) = ap suc (length-symbols context (suc i) n)

    holds-at :
        (context after : Context Text) (i n j : ℕ)
        → Holds after i (symbols context i n)
        → i ≤ j
        → j < i + n
        → (get_name after j ≡ get_name context j)
          × ((get_internal_value after j).is_const ≡ (get_internal_value context j).is_const)
    unfolding symbols
    holds-at context after i zero j h from to = absurd (omega arith)
    holds-at context after i (suc n) j (name, const, h) from to = elim (Bool-cases (i == j)) [
      | inl x ↦
          let same : i ≡ j = ground arith in
          subst
            (λ k.
              (get_name after k ≡ get_name context k)
              × ((get_internal_value after k).is_const ≡ (get_internal_value context k).is_const))
            same (name, const)
      | inr x ↦ holds-at context after (suc i) n j h (ground arith) (omega arith)
    ]

    Read-Restored :
        (context empty after : Context Text)
        → IsContext context
        → length empty.values ≡ 0
        → Read packer empty (symbols context 0 (length context.names)) after
        → Restored context after
    Read-Restored context empty after w none_yet r =
        let n = length context.names in
        let holds = subst (λ i. Holds after i (symbols context 0 n)) none_yet r.holds in
        let paired = w.paired in
        record {
          is_context = r.context;
          size = omega (arith, r.size, length-symbols context 0 n);
          names = λ i low. (holds-at context after 0 n i holds (omega arith) (omega arith)).0;
          constants = λ i low. (holds-at context after 0 n i holds (omega arith) (omega arith)).1;
        }

    -- the program that is loaded, and the context with its globals
    abbrev pub Loads : Function → Context Text → Context Text → SerializedBytecode → Type 0
    Loads f context empty out =
        (after : Context Text) × (deserialize_program packer out empty
          ≡ some (loaded emit f, after))
        × Restored context after

    module _ (f : Function) (context empty : Context Text) (fits : Fits f) (w : IsContext context)
        (few : length context.values < uint16_max) (w' : IsContext empty)
        (none_yet : length empty.values ≡ 0) where
      assembled :
          (id : ℕ) (s s' : Serializer) (globals strings : List ℕ)
          → serialize_function packer emit f (empty_serializer packer emit) ≡ some (id, s)
          → serialize_symbol_table packer emit (symbols context 0 (length context.names)) s
            ≡ some (globals, s')
          → write_string_block_header packer emit s' ≡ some strings
          → length (concat s'.chunks) < uint32_max
          → Loads f context empty (serialized packer emit s' strings globals)
      unfolding deserialize_program
      assembled id s s' globals strings run run' run'' small =
          let n = length context.names in
          let paired = w.paired in
          let count = length-symbols context 0 n in
          let written =
            serialize_function-Written packer emit f (empty_serializer packer emit) (id, s) run fits
              tt (omega arith) in
          let laid =
            serialize_function-BlockLaid packer emit f (empty_serializer packer emit) (id, s) run
              (empty-BlockLaid packer emit) in
          let kept =
            serialize_symbol_table-Written packer emit (symbols context 0 n) s (globals, s') run'
              laid in
          let (strings_read, agrees, short) = block-read packer emit s' strings kept.laid run'' in
          let known = found_strings s'.strings_offset in
          let (functions, chunks_read, script) =
            chunks-read f id s known written
              (Agrees-before known s.strings_offset s'.strings_offset kept.extends agrees)
              (subst (λ c. length (concat c) < 2 ^ 32) kept.chunks (omega arith)) in
          let chunks_read' : deserialize_chunks packer known (concat s'.chunks) ≡ some functions =
            ap (λ c. deserialize_chunks packer known (concat c)) kept.chunks ∙ chunks_read in
          let table =
            table-read packer emit known (symbols context 0 n) s (globals, s') empty run' laid
              agrees (omega arith) w' (symbols-AllNew context empty 0 n w w' none_yet (omega arith))
              none_yet in
          let long = table.long in
          let strings_fit : leb uint32_max (length strings) ≡ false = ground arith in
          let globals_fit : leb (8 * uint16_max) (length globals) ≡ false = ground arith in
          let bytecode_fits : leb uint32_max (length (concat s'.chunks)) ≡ false = ground arith in
          (
            table.after,
            rw (
              strings_fit, strings_read, globals_fit, table.run, bytecode_fits, chunks_read',
              script,
            ),
            Read-Restored context empty table.after w none_yet table.read,
          )

      -- A program that the serializer can write, each number of which fits its field, and whose
      -- chunks take fewer than `2 ^ 32 - 1` bytes, with a well-formed context of fewer than
      -- `2 ^ 16 - 1` globals, is read back into a well-formed context without globals: the result is
      -- the program with all its functions, constants and code, and the lines where they are stored,
      -- and the context has the same globals, each with its index, and constant or not as before.
      pub serialize_program-Loads :
          (out : SerializedBytecode)
          → serialize_program packer emit f context ≡ some out
          → length out.bytecode < uint32_max
          → Loads f context empty out
      unfolding serialize_program
      serialize_program-Loads out h small =
          let ((id, s), run, h₀) =
            bind-some (serialize_function packer emit f (empty_serializer packer emit)) _ out h in
          let (first, h₁) = none-if-some (not (id == 0)) _ out h₀ in
          let ((globals, s'), run', h₂) =
            bind-some
              (serialize_symbol_table packer emit (symbols context 0 (length context.names)) s) _
              out h₁ in
          let (strings, run'', e) = bind-some (write_string_block_header packer emit s') _ out h₂ in
          let whole : serialized packer emit s' strings globals ≡ out = some_eq _ out e in
          subst (Loads f context empty) whole (
            assembled id s s' globals strings run run' run'' (
              subst (λ (o : SerializedBytecode). length o.bytecode < uint32_max) (sym whole) small))
