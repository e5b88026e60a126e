-- ===== src/Integers.antt =====
-- Signed integers over the native numbers: `negsuc n` is - (n + 1).
use cpp_lox.Prelude.{ℕ}

pub data ℤ : Type 0 where
  pos negsuc : ℕ → ℤ
