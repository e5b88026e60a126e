-- ===== src/Serialization/Nodes.antt =====
-- The chunk of one function, behind the chunks of the functions of its constants.
use cpp_lox.Prelude.{
  ℕ, suc, ◌+◌, ◌*◌, ◌^◌, ◌<◌, ◌≤◌, ◌≡◌, refl, sym, ap, ◌∙◌, inl, inr, subst, Bool, true, false,
  none, some, List, [], ◌∷◌, ◌++◌, ◌==◌, length, arith, length-append,
}
use mathlib.Core.List.{append_assoc}
use cpp_lox.Chunk.{LineInfo}
use cpp_lox.Serialization.Packer.{Packer, encode_all, AllFit, length-encode_all}
use cpp_lox.Serialization.Functions.{Text, Function, make, Constants, count}
use cpp_lox.Serialization.Serializer.{Serializer, uint16_max, uint32_max, flag_byte, put_chunk}
use cpp_lox.Serialization.Deserializer.{find, deserialize_constant_pool}
use cpp_lox.Serialization.Chunks.{LinesFit}
use cpp_lox.Serialization.Bodies.{header, stored, debug_part, chunk-read}
use cpp_lox.Serialization.Written.{
  Stored, Extends-trans, Below, Below-append, From-append, From-weaken, put_chunk-between,
}
use cpp_lox.Serialization.Steps.{Step, Steps, Steps-append}
use cpp_lox.Serialization.Trees.{
  Readable, FunctionWritten, PoolReadable, PoolWritten, loaded, loaded_pool,
}

flag_byte-small : (b : Bool) → flag_byte b < 256
unfolding flag_byte
flag_byte-small true = omega arith
flag_byte-small false = omega arith

module _ (packer : Packer) (emit : Bool) (name : Text) (name_at arity upvalue_count id : ℕ)
    (constants : Constants) (pool code : List ℕ) (lines : List LineInfo) where
  abbrev head : List ℕ
  head =
      encode_all packer (header name_at arity upvalue_count (count constants) (length code) emit id)

  -- the bytes of the chunk
  abbrev pub chunk : List ℕ
  chunk = head ++ (pool ++ (code ++ debug_part packer emit lines))

  length-chunk :
      length chunk ≡ 24 + length pool + length code + length (debug_part packer emit lines)
  length-chunk = omega (
    arith,
    length-append head (pool ++ (code ++ debug_part packer emit lines)),
    length-append pool (code ++ debug_part packer emit lines),
    length-append code (debug_part packer emit lines),
    length-encode_all packer
        (header name_at arity upvalue_count (count constants) (length code) emit id),
  )

  regroup :
      (post : List ℕ)
      → chunk ++ post ≡ head ++ (pool ++ (code ++ (debug_part packer emit lines ++ post)))
  regroup post =
      append_assoc head (pool ++ (code ++ debug_part packer emit lines)) post
      ∙ ap (λ b. head ++ b)
          (append_assoc pool (code ++ debug_part packer emit lines) post
            ∙ ap (λ b. pool ++ b) (append_assoc code (debug_part packer emit lines) post))

  -- the chunk is read where its strings and the functions of its constants are known
  chunk-Step :
      (strings : List (ℕ × Text)) (functions : List (ℕ × Function)) (read : Constants)
      → AllFit (header name_at arity upvalue_count (count constants) (length code) emit id)
      → find name_at strings ≡ some name
      → length pool ≡ count constants * 9
      → ((rest : List ℕ)
          → deserialize_constant_pool packer strings functions (pool ++ rest) (count constants)
            ≡ some read)
      → find id functions ≡ none
      → LinesFit lines
      → Step packer strings functions chunk
          ((id, make name arity upvalue_count read code (stored emit lines)) ∷ functions)
  chunk-Step strings functions read fits named long decodes new lines_fit = record {
    long = omega (arith, length-chunk);
    reads = λ size pre post room small.
        let total = length-chunk in
        let result =
          chunk-read packer strings functions size small emit name name_at arity upvalue_count id
            read (count constants) pool code lines pre post fits named long decodes new lines_fit
            (omega arith) in
        rw (regroup post, result)
          (ap
            (λ n.
              some
                (n, (id, make name arity upvalue_count read code (stored emit lines)) ∷ functions))
            (omega arith));
  }

  -- the header has no number that is cut off
  abbrev NodeFits : Type 0
  NodeFits =
      (arity < 256)
      × (upvalue_count < 2 ^ 16)
      × (count constants < 2 ^ 16)
      × (length code < 2 ^ 32)
      × LinesFit lines

  header-AllFit :
      NodeFits
      → name_at < uint32_max
      → id < uint16_max
      → AllFit (header name_at arity upvalue_count (count constants) (length code) emit id)
  header-AllFit (a, u, c, l, ls) named low = (
    omega arith,
    (
      omega arith,
      (a, (u, (c, (l, (flag_byte-small emit, (omega arith, (omega arith, (omega arith, tt)))))))),
    ),
  )

  node-Readable :
      (high : ℕ) (new : List (ℕ × List ℕ)) (strings : List (ℕ × Text))
      (before : List (ℕ × Function))
      → NodeFits
      → id < high
      → high ≤ uint16_max
      → find name_at strings ≡ some name
      → name_at < uint32_max
      → length pool ≡ count constants * 9
      → find id before ≡ none
      → PoolReadable packer emit constants pool (suc id) high new strings before
      → Readable packer emit
          (make name arity upvalue_count constants code lines)
          id
          id
          high
          (new ++ (id, chunk) ∷ [])
          strings
          before
  unfolding loaded Steps find
  node-Readable high new strings before fits grows limit named low long absent rest =
      let f = make name arity upvalue_count (loaded_pool emit constants) code (stored emit lines) in
      record {
        after = (id, f) ∷ rest.after;
        steps =
            Steps-append packer strings before rest.after ((id, f) ∷ rest.after) new
              ((id, chunk) ∷ []) rest.steps
              (
                (id, f) ∷ rest.after,
                chunk-Step strings rest.after (loaded_pool emit constants)
                    (header-AllFit fits low (omega arith)) named long
                    (rest.decodes rest.after (λ k from to. refl))
                    (rest.outside id (inl (omega arith)) ∙ absent) fits.4,
                refl,
              );
        outside = λ k away.
            let other : (id == k) ≡ false = ground arith in
            rw other (elim away [
              | inl below ↦ rest.outside k (inl (omega arith))
              | inr above ↦ rest.outside k (inr above)
            ]);
        found = let same : (id == id) ≡ true = ground arith in rw same;
      }

  -- the state behind the chunk
  abbrev pub with_chunk : Serializer → Serializer
  with_chunk s = record s { chunks = put_chunk id chunk s.chunks }

  pub node-Written :
      (s named pooled : Serializer)
      → NodeFits
      → id ≡ s.chunk_counter
      → id < uint16_max
      → Below id s.chunks
      → Stored name name_at (record s { chunk_counter = s.chunk_counter + 1 }) named
      → PoolWritten packer emit constants named pool pooled
      → FunctionWritten packer emit
          (make name arity upvalue_count constants code lines)
          s
          id
          (with_chunk pooled)
  node-Written s named pooled fits e low older stored rest =
      let w = rest.written in
      let counted = stored.counter in
      let grows = w.counted in
      record {
        new = rest.new ++ (id, chunk) ∷ [];
        written = record {
          counted = omega arith;
          limit = w.limit;
          extends =
              Extends-trans s.strings_offset named.strings_offset pooled.strings_offset
                stored.extends w.extends;
          chunks =
              ap (put_chunk id chunk) (w.chunks ∙ ap (λ c. rest.new ++ c) stored.chunks)
              ∙ put_chunk-between id chunk rest.new s.chunks
                  (From-weaken (suc id) named.chunk_counter rest.new (omega arith) w.from) older
              ∙ sym (append_assoc rest.new ((id, chunk) ∷ []) s.chunks);
          from =
              From-append s.chunk_counter rest.new ((id, chunk) ∷ [])
                (From-weaken s.chunk_counter named.chunk_counter rest.new (omega arith) w.from)
                (omega arith, tt);
          below =
              Below-append pooled.chunk_counter rest.new ((id, chunk) ∷ []) w.below
                (omega arith, tt);
        };
        numbered = e;
        grows = omega arith;
        readable = λ strings before agrees absent.
            let (found, short) = agrees name name_at (w.extends name name_at stored.known) in
            let inner =
              rest.readable strings before agrees (λ k from to. absent k (omega arith) to) in
            subst
              (λ from.
                Readable packer emit (make name arity upvalue_count constants code lines) id from
                  pooled.chunk_counter (rest.new ++ (id, chunk) ∷ []) strings before)
              e
              (node-Readable pooled.chunk_counter rest.new strings before fits (omega arith) w.limit
                found short rest.long (absent id (omega arith) (omega arith))
                (subst
                  (λ from.
                    PoolReadable packer emit constants pool from pooled.chunk_counter rest.new
                      strings before)
                  (omega arith) inner));
      }
