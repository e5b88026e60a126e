-- ===== src/Serialization/Pools.antt =====
-- The constants of a function, written and read back.
use cpp_lox.Prelude.{
  ℕ, ◌<◌, ◌≤◌, ◌≡◌, refl, sym, ap, ◌∙◌, inl, inr, subst, Bool, List, [], ◌∷◌, ◌++◌, length, arith,
  length-append,
}
use mathlib.Core.List.{append_assoc}
use cpp_lox.Serialization.Packer.{Packer}
use cpp_lox.Serialization.Functions.{Text, Scalar, Function, Constants, end, scalar, nested, count}
use cpp_lox.Serialization.Serializer.{Serializer, uint16_max}
use cpp_lox.Serialization.Deserializer.{deserialize_constant_pool}
use cpp_lox.Serialization.Written.{
  Agrees-before, Extends-trans, Below-append, Below-weaken, From-append, From-weaken,
}
use cpp_lox.Serialization.Steps.{Steps, Steps-append}
use cpp_lox.Serialization.Scalars.{Good, nested-Reads, Reads}
use cpp_lox.Serialization.Trees.{
  Readable, FunctionWritten, PoolReadable, PoolWritten, loaded, loaded_pool, pool_step,
}

module _ (packer : Packer) (emit : Bool) where
  pub end-Written :
      (s : Serializer) → s.chunk_counter ≤ uint16_max → PoolWritten packer emit end s [] s
  unfolding count Steps deserialize_constant_pool loaded_pool
  end-Written s limit = record {
    new = [];
    written = record {
      counted = omega arith;
      limit = limit;
      extends = λ t o e. e;
      chunks = refl;
      from = tt;
      below = tt;
    };
    long = refl;
    readable = λ strings before agrees absent. record {
      after = before;
      steps = refl;
      outside = λ k away. refl;
      decodes = λ later same rest. refl;
    };
  }

  scalar-Readable :
      (v : Scalar) (constants : Constants) (bytes more : List ℕ) (low high : ℕ)
      (new : List (ℕ × List ℕ)) (strings : List (ℕ × Text)) (before : List (ℕ × Function))
      → ((functions : List (ℕ × Function)) → Reads packer strings functions bytes (scalar v))
      → PoolReadable packer emit constants more low high new strings before
      → PoolReadable packer emit (scalar v constants) (bytes ++ more) low high new strings before
  unfolding count loaded_pool
  scalar-Readable v constants bytes more low high new strings before one pool = record {
    after = pool.after;
    steps = pool.steps;
    outside = pool.outside;
    decodes = λ later same.
        pool_step packer strings later bytes more (scalar v) (loaded_pool emit constants)
          (count constants) (one later) (pool.decodes later same);
  }

  pub scalar-after :
      (v : Scalar) (constants : Constants) (s s₁ s₂ : Serializer) (bytes more : List ℕ)
      → length bytes ≡ 9
      → s₁.chunk_counter ≡ s.chunk_counter
      → Good packer v s (bytes, s₁)
      → PoolWritten packer emit constants s₁ more s₂
      → PoolWritten packer emit (scalar v constants) s (bytes ++ more) s₂
  unfolding count
  scalar-after v constants s s₁ s₂ bytes more nine same (one, reads) pool = record {
    new = pool.new;
    written = record {
      counted = omega (arith, pool.written.counted);
      limit = pool.written.limit;
      extends =
          Extends-trans s.strings_offset s₁.strings_offset s₂.strings_offset one.extends
            pool.written.extends;
      chunks = pool.written.chunks ∙ ap (λ c. pool.new ++ c) one.chunks;
      from = From-weaken s.chunk_counter s₁.chunk_counter pool.new (omega arith) pool.written.from;
      below = pool.written.below;
    };
    long = omega (arith, length-append bytes more, pool.long);
    readable = λ strings before agrees absent.
        subst
          (λ low.
            PoolReadable packer emit (scalar v constants) (bytes ++ more) low s₂.chunk_counter
              pool.new strings before)
          same
          (scalar-Readable v constants bytes more s₁.chunk_counter s₂.chunk_counter pool.new strings
            before
            (λ functions. reads strings functions (
              Agrees-before strings s₁.strings_offset s₂.strings_offset pool.written.extends
                agrees))
            (pool.readable strings before agrees (λ k from. absent k (omega arith))));
  }

  nested-Readable :
      (f : Function) (constants : Constants) (id : ℕ) (more : List ℕ) (low mid high : ℕ)
      (new new' : List (ℕ × List ℕ)) (strings : List (ℕ × Text)) (before : List (ℕ × Function))
      → id ≡ low
      → low < mid
      → mid ≤ high
      → high ≤ uint16_max
      → (pool : PoolReadable packer emit constants more mid high new' strings before)
      → Readable packer emit f id low mid new strings pool.after
      → PoolReadable packer emit
          (nested f constants)
          ((b'F' ∷ packer.encode 8 id) ++ more)
          low
          high
          (new' ++ new)
          strings
          before
  unfolding count loaded_pool
  nested-Readable f constants id more low mid high new new' strings before e grows upto limit pool
        one =
      record {
        after = one.after;
        steps =
            Steps-append packer strings before pool.after one.after new' new pool.steps one.steps;
        outside = λ k away. elim away [
          | inl below ↦ one.outside k (inl below) ∙ pool.outside k (inl (omega arith))
          | inr above ↦ one.outside k (inr (omega arith)) ∙ pool.outside k (inr above)
        ];
        decodes = λ later same.
            pool_step packer strings later (b'F' ∷ packer.encode 8 id) more (nested (loaded emit f))
              (loaded_pool emit constants) (count constants)
              (nested-Reads packer strings later (loaded emit f) id
                (same id (omega arith) (omega arith) ∙ one.found) (omega arith))
              (pool.decodes later
                (λ k from to. same k (omega arith) to ∙ one.outside k (inr from)));
      }

  pub nested-after :
      (f : Function) (constants : Constants) (s s₁ s₂ : Serializer) (id : ℕ) (more : List ℕ)
      → FunctionWritten packer emit f s id s₁
      → PoolWritten packer emit constants s₁ more s₂
      → PoolWritten packer emit (nested f constants) s ((b'F' ∷ packer.encode 8 id) ++ more) s₂
  unfolding count
  nested-after f constants s s₁ s₂ id more one pool =
      let w = one.written in
      let w' = pool.written in
      let mid = w'.counted in
      let start = one.grows in
      record {
        new = pool.new ++ one.new;
        written = record {
          counted = omega arith;
          limit = w'.limit;
          extends =
              Extends-trans s.strings_offset s₁.strings_offset s₂.strings_offset w.extends
                w'.extends;
          chunks =
              w'.chunks
              ∙ ap (λ c. pool.new ++ c) w.chunks
              ∙ sym (append_assoc pool.new one.new s.chunks);
          from =
              From-append s.chunk_counter pool.new one.new
                (From-weaken s.chunk_counter s₁.chunk_counter pool.new w.counted w'.from) w.from;
          below =
              Below-append s₂.chunk_counter pool.new one.new w'.below
                (Below-weaken s₁.chunk_counter s₂.chunk_counter one.new w'.counted w.below);
        };
        long = omega (
          arith,
          length-append (b'F' ∷ packer.encode 8 id) more,
          packer.length_encode 8 id,
          pool.long,
        );
        readable = λ strings before agrees absent.
            let rest =
              pool.readable strings before agrees (λ k from to. absent k (omega arith) to) in
            nested-Readable f constants id more s.chunk_counter s₁.chunk_counter s₂.chunk_counter
              one.new pool.new strings before one.numbered one.grows w'.counted w'.limit rest
              (one.readable strings rest.after
                (Agrees-before strings s₁.strings_offset s₂.strings_offset w'.extends agrees)
                (λ k from to. rest.outside k (inl to) ∙ absent k from (omega arith)));
      }
