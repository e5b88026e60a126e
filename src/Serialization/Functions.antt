-- ===== src/Serialization/Functions.antt =====
-- include/function.hpp and include/chunk.hpp: a compiled function as a value.
-- A string is its bytes: strings with the same bytes are one object, since they are interned. A
-- function holds the functions of its constants, of which each has one holder.
use cpp_lox.Prelude.{ℕ, suc, Bool, List}
use cpp_lox.Chunk.{LineInfo}

abbrev pub Text : Type 0
Text = List ℕ

-- The constants other than functions; `other` is an object that is neither a string nor a function.
-- A double and an `int64_t` are their 64 bits.
pub data Scalar : Type 0 where
  nil other : Scalar
  boolean : Bool → Scalar
  number_real number_int : ℕ → Scalar
  string : Text → Scalar

mutual
  pub data Function : Type 0 where
    make :
        (name : Text) (arity upvalue_count : ℕ) (constants : Constants) (code : List ℕ)
        (lines : List LineInfo)
        → Function

  pub data Constants : Type 0 where
    end : Constants
    scalar : Scalar → Constants → Constants
    nested : Function → Constants → Constants

unfoldable pub count : Constants → ℕ
count end = 0
count (scalar v rest) = suc (count rest)
count (nested f rest) = suc (count rest)
