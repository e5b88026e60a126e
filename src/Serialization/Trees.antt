-- ===== src/Serialization/Trees.antt =====
-- A function with the functions of its constants: what it needs to be stored, what is read of it,
-- and what writing it means.
use cpp_lox.Prelude.{ℕ, suc, ◌*◌, ◌^◌, ◌<◌, ◌≤◌, ◌≡◌, ◌⊎◌, Bool, none, some, List, ◌++◌, length}
use mathlib.Core.List.{append_assoc}
use cpp_lox.Serialization.Packer.{Packer, drop-at}
use cpp_lox.Serialization.Functions.{Text, Function, make, Constants, end, scalar, nested, count}
use cpp_lox.Serialization.Serializer.{Serializer}
use cpp_lox.Serialization.Deserializer.{find, deserialize_constant_pool}
use cpp_lox.Serialization.Chunks.{LinesFit}
use cpp_lox.Serialization.Bodies.{stored}
use cpp_lox.Serialization.Written.{Written, Agrees}
use cpp_lox.Serialization.Steps.{Steps}
use cpp_lox.Serialization.Scalars.{Reads, ScalarFits}

-- each number of a function fits its field
unfoldable mutual
  pub Fits : Function → Type 0
  Fits (make name arity upvalue_count constants code lines) =
      (arity < 256)
      × (upvalue_count < 2 ^ 16)
      × (count constants < 2 ^ 16)
      × (length code < 2 ^ 32)
      × LinesFit lines
      × PoolFits constants

  pub PoolFits : Constants → Type 0
  PoolFits end = Unit
  PoolFits (scalar v rest) = ScalarFits v × PoolFits rest
  PoolFits (nested f rest) = Fits f × PoolFits rest

-- what is read of a function: all of it, the lines only where they are stored
unfoldable mutual
  pub loaded : Bool → Function → Function
  loaded emit (make name arity upvalue_count constants code lines) =
      make name arity upvalue_count (loaded_pool emit constants) code (stored emit lines)

  pub loaded_pool : Bool → Constants → Constants
  loaded_pool emit end = end
  loaded_pool emit (scalar v rest) = scalar v (loaded_pool emit rest)
  loaded_pool emit (nested f rest) = nested (loaded emit f) (loaded_pool emit rest)

-- no function has an id from `low` to before `high`
abbrev pub Absent : ℕ → ℕ → List (ℕ × Function) → Type 0
Absent low high functions = (k : ℕ) → low ≤ k → k < high → find k functions ≡ none

abbrev pub SameWithin : ℕ → ℕ → List (ℕ × Function) → List (ℕ × Function) → Type 0
SameWithin low high before after = (k : ℕ) → low ≤ k → k < high → find k after ≡ find k before

abbrev pub SameOutside : ℕ → ℕ → List (ℕ × Function) → List (ℕ × Function) → Type 0
SameOutside low high before after = (k : ℕ) → (k < low) ⊎ (high ≤ k) → find k after ≡ find k before

module _ (packer : Packer) where
  -- the chunks of a function with the id `id` are read, and leave it
  pub record Readable (emit : Bool) (f : Function) (id low high : ℕ) (new : List (ℕ × List ℕ))
      (strings : List (ℕ × Text)) (before : List (ℕ × Function)) : Type 0 where
    pub after : List (ℕ × Function)
    pub steps : Steps packer strings before new after
    pub outside : SameOutside low high before after
    pub found : find id after ≡ some (loaded emit f)

  pub record FunctionWritten (emit : Bool) (f : Function) (s : Serializer) (id : ℕ)
      (s' : Serializer) : Type 0 where
    pub new : List (ℕ × List ℕ)
    pub written : Written s s' new
    pub numbered : id ≡ s.chunk_counter
    pub grows : s.chunk_counter < s'.chunk_counter
    pub readable :
        (strings : List (ℕ × Text)) (before : List (ℕ × Function))
        → Agrees strings s'.strings_offset
        → Absent s.chunk_counter s'.chunk_counter before
        → Readable emit f id s.chunk_counter s'.chunk_counter new strings before

  -- where the functions of the constants are known, the bytes are read as the constants
  abbrev pub Decodes : Bool → Constants → List ℕ → List (ℕ × Text) → List (ℕ × Function) → Type 0
  Decodes emit constants bytes strings functions =
      (rest : List ℕ)
      → deserialize_constant_pool packer strings functions (bytes ++ rest) (count constants)
        ≡ some (loaded_pool emit constants)

  pub record PoolReadable (emit : Bool) (constants : Constants) (bytes : List ℕ) (low high : ℕ)
      (new : List (ℕ × List ℕ)) (strings : List (ℕ × Text)) (before : List (ℕ × Function))
      : Type 0 where
    pub after : List (ℕ × Function)
    pub steps : Steps packer strings before new after
    pub outside : SameOutside low high before after
    pub decodes :
        (later : List (ℕ × Function))
        → SameWithin low high after later
        → Decodes emit constants bytes strings later

  pub record PoolWritten (emit : Bool) (constants : Constants) (s : Serializer) (bytes : List ℕ)
      (s' : Serializer) : Type 0 where
    pub new : List (ℕ × List ℕ)
    pub written : Written s s' new
    pub long : length bytes ≡ count constants * 9
    pub readable :
        (strings : List (ℕ × Text)) (before : List (ℕ × Function))
        → Agrees strings s'.strings_offset
        → Absent s.chunk_counter s'.chunk_counter before
        → PoolReadable emit constants bytes s.chunk_counter s'.chunk_counter new strings before

  -- one more constant
  pub pool_step :
      (strings : List (ℕ × Text)) (functions : List (ℕ × Function)) (bytes more : List ℕ)
      (add : Constants → Constants) (pool : Constants) (n : ℕ)
      → Reads packer strings functions bytes add
      → ((rest : List ℕ)
          → deserialize_constant_pool packer strings functions (more ++ rest) n ≡ some pool)
      → (rest : List ℕ)
      → deserialize_constant_pool packer strings functions ((bytes ++ more) ++ rest) (suc n)
        ≡ some (add pool)
  unfolding deserialize_constant_pool
  pool_step strings functions bytes more add pool n one k rest = rw (
    append_assoc bytes more rest,
    one.reads (more ++ rest),
    drop-at 9 bytes (more ++ rest) one.nine,
    k rest,
  )
