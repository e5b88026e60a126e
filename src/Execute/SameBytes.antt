-- ===== src/Execute/SameBytes.antt =====
-- The comparison of strings by their bytes.
use cpp_lox.Prelude.{ℕ, ◌≡◌, refl, true, List, [], ◌∷◌, arith}
use cpp_lox.Execute.Values.{same_bytes}

pub same_bytes-eq : (u t : List ℕ) → same_bytes u t ≡ true → u ≡ t
unfolding same_bytes
same_bytes-eq [] [] h = refl
same_bytes-eq [] (y ∷ ys) h = cc
same_bytes-eq (x ∷ xs) [] h = cc
same_bytes-eq (x ∷ xs) (y ∷ ys) h = ground (arith, same_bytes-eq xs ys)

pub same_bytes_self : (t : List ℕ) → same_bytes t t ≡ true
unfolding same_bytes
same_bytes_self [] = refl
same_bytes_self (x ∷ xs) = ground (arith, same_bytes_self xs)
