-- ===== src/HashMap/NumberKey.antt =====
-- Keys for concrete tables: numbers, with `Key{}` zero and the hash of a number its value.
use cpp_lox.Prelude.{ℕ, arith, ◌==◌}
use cpp_lox.HashMap.Keys.{Key, IsLawful, Default}

pub number_IsLawful : IsLawful (λ a b. a == b) (λ a. a)
number_IsLawful = record {
  reflexive = λ a. ground arith;
  swap = λ a b. ground arith;
  chain = λ a b c h k. ground arith;
  hash_same = λ a b h. ground arith;
}

instance abbrev pub number_key : Key ℕ
number_key = record { default = 0; equal = λ a b. a == b; hash = λ a. a; lawful = number_IsLawful }

instance abbrev pub number_value : Default ℕ
number_value = record { default = 0 }
