-- ===== src/Serialization/Packer.antt =====
-- What the serializer uses of thirdparty/datapacker.hpp: unsigned integers of `w` bytes, packed one
-- after the other, the least byte first.
use cpp_lox.Prelude.{
  ℕ, ◌+◌, ◌^◌, ◌<◌, ◌≡◌, refl, sym, ap, ◌∙◌, List, [], ◌∷◌, ◌++◌, length, drop, replicate,
  length-append, arith, take,
}
use mathlib.Core.List.{append_assoc}

pub record Packer : Type 0 where
  pub encode : ℕ → ℕ → List ℕ
  pub decode : ℕ → List ℕ → ℕ
  pub length_encode : (w v : ℕ) → length (encode w v) ≡ w
  pub decode_encode : (w v : ℕ) (rest : List ℕ) → v < 256 ^ w → decode w (encode w v ++ rest) ≡ v
  pub encode_byte : (b : ℕ) → b < 256 → encode 1 b ≡ b ∷ []
  pub decode_byte : (b : ℕ) (rest : List ℕ) → b < 256 → decode 1 (b ∷ rest) ≡ b
  -- a number that was written in one byte, where there is room for eight
  pub decode_low_byte :
      (b : ℕ) (rest : List ℕ) → b < 256 → decode 8 (encode 1 b ++ (replicate 7 0 ++ rest)) ≡ b

module _ {ℓ} {A : Type ℓ} where
  pub drop-append : (xs ys : List A) → drop (length xs) (xs ++ ys) ≡ ys
  drop-append [] ys = refl
  drop-append (x ∷ xs) ys = drop-append xs ys

  pub take-append : (xs ys : List A) → take (length xs) (xs ++ ys) ≡ xs
  take-append [] ys = refl
  take-append (x ∷ xs) ys = ap (λ zs. x ∷ zs) (take-append xs ys)

  pub drop-at : (n : ℕ) (xs ys : List A) → length xs ≡ n → drop n (xs ++ ys) ≡ ys
  drop-at n xs ys h = ap (λ k. drop k (xs ++ ys)) (sym h) ∙ drop-append xs ys

  pub take-at : (n : ℕ) (xs ys : List A) → length xs ≡ n → take n (xs ++ ys) ≡ xs
  take-at n xs ys h = ap (λ k. take k (xs ++ ys)) (sym h) ∙ take-append xs ys

-- each value has room
abbrev pub AllFit : List (ℕ × ℕ) → Type 0
AllFit [] = Unit
AllFit ((w, v) ∷ fields) = (v < 256 ^ w) × AllFit fields

abbrev pub widths : List (ℕ × ℕ) → List ℕ
widths [] = []
widths ((w, v) ∷ fields) = w ∷ widths fields

abbrev pub values : List (ℕ × ℕ) → List ℕ
values [] = []
values ((w, v) ∷ fields) = v ∷ values fields

abbrev pub total : List ℕ → ℕ
total [] = 0
total (w ∷ ws) = w + total ws

module _ (packer : Packer) where
  -- `encode` and `decode` of several values: a width and a value for each
  unfoldable pub encode_all : List (ℕ × ℕ) → List ℕ
  encode_all [] = []
  encode_all ((w, v) ∷ fields) = packer.encode w v ++ encode_all fields

  unfoldable pub decode_all : List ℕ → List ℕ → List ℕ
  decode_all [] bytes = []
  decode_all (w ∷ widths) bytes = packer.decode w bytes ∷ decode_all widths (drop w bytes)

  pub length-encode_all :
      (fields : List (ℕ × ℕ)) → length (encode_all fields) ≡ total (widths fields)
  unfolding encode_all
  length-encode_all [] = refl
  length-encode_all ((w, v) ∷ fields) = omega (
    arith,
    length-append (packer.encode w v) (encode_all fields),
    packer.length_encode w v,
    length-encode_all fields,
  )

  pub decode_all-encode_all :
      (fields : List (ℕ × ℕ)) (rest : List ℕ)
      → AllFit fields
      → decode_all (widths fields) (encode_all fields ++ rest) ≡ values fields
  unfolding encode_all decode_all
  decode_all-encode_all [] rest h = refl
  decode_all-encode_all ((w, v) ∷ fields) rest (low, h) = rw (
    append_assoc (packer.encode w v) (encode_all fields) rest,
    packer.decode_encode w v (encode_all fields ++ rest) low,
    drop-at w (packer.encode w v) (encode_all fields ++ rest) (packer.length_encode w v),
    decode_all-encode_all fields rest h,
  )
