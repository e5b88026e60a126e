-- ===== src/HashMap/Keys.antt =====
-- The template parameters `Key`, `Hash` and `KeyEqual` of include/hashmap.hpp.
-- `default` is `Key{}`, or `Value{}` for the values.
use cpp_lox.Prelude.{ℕ, Bool, true, ◌≡◌, arith}

pub record Default {ℓ} (V : Type ℓ) : Type ℓ where
  pub default : V

-- What a hash table asks of the comparison and the hash.
pub record IsLawful {ℓ} {K : Type ℓ} (equal : K → K → Bool) (hash : K → ℕ) : Type ℓ where
  pub reflexive : (a : K) → equal a a ≡ true
  pub swap : (a b : K) → equal a b ≡ equal b a
  pub chain : (a b c : K) → equal a b ≡ true → equal b c ≡ true → equal a c ≡ true
  pub hash_same : (a b : K) → equal a b ≡ true → hash a ≡ hash b

pub record Key {ℓ} (K : Type ℓ) : Type ℓ where
  pub hash : K → ℕ
  pub default : K
  pub equal : K → K → Bool
  pub lawful : IsLawful equal hash

module _ {ℓ} {K : Type ℓ} ⦃key : Key K⦄ where
  -- equal keys compare alike with any other
  pub equal_congr_right : (k p q : K) → key.equal p q ≡ true → key.equal k p ≡ key.equal k q
  equal_congr_right k p q e =
      ground (arith, key.lawful.chain k p q, key.lawful.chain k q p, key.lawful.swap p q)

  pub equal_congr_left : (p q k : K) → key.equal p q ≡ true → key.equal p k ≡ key.equal q k
  equal_congr_left p q k e =
      ground (arith, equal_congr_right k p q e, key.lawful.swap p k, key.lawful.swap q k)
