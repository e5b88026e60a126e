-- ===== src/Serialization/Written.antt =====
-- What a step of the serializer does to its state: the strings that it knows stay where they are, and
-- the chunks that it adds have the ids it has counted.
pub use cpp_lox.Execute.SameBytes.{same_bytes-eq, same_bytes_self}
pub use cpp_lox.Prelude.{bind-some, bind-then, none-if-some, some_eq}
use cpp_lox.Prelude.{
  ℕ, suc, ◌<◌, ◌≤◌, ◌≡◌, refl, sym, ap, ◌∙◌, inl, inr, subst, Bool, true, false, none, some, List,
  [], ◌∷◌, ◌++◌, ltb, ◌==◌, length, arith, Bool-cases, Option-cases,
}
use cpp_lox.Execute.Values.{same_bytes}
use cpp_lox.Serialization.Packer.{Packer}
use cpp_lox.Serialization.Functions.{Text}
use cpp_lox.Serialization.Serializer.{
  Serializer, find_string, put_chunk, add_string, or_add_string, serialize_string, uint32_max,
  uint16_max,
}
use cpp_lox.Serialization.Deserializer.{find}

-- every string that is known keeps its offset
abbrev pub Extends : List (Text × ℕ) → List (Text × ℕ) → Type 0
Extends old new = (t : Text) (o : ℕ) → find_string t old ≡ some o → find_string t new ≡ some o

pub Extends-trans : (a b c : List (Text × ℕ)) → Extends a b → Extends b c → Extends a c
Extends-trans a b c h k t o e = k t o (h t o e)

-- the strings that the deserializer has found are the ones that the serializer wrote
abbrev pub Agrees : List (ℕ × Text) → List (Text × ℕ) → Type 0
Agrees strings offsets =
    (t : Text) (o : ℕ)
    → find_string t offsets ≡ some o
    → (find o strings ≡ some t) × (o < uint32_max)

pub Agrees-before :
    (strings : List (ℕ × Text)) (old new : List (Text × ℕ))
    → Extends old new
    → Agrees strings new
    → Agrees strings old
Agrees-before strings old new h k t o e = k t o (h t o e)

add-Extends :
    (t : Text) (o : ℕ) (offsets : List (Text × ℕ))
    → find_string t offsets ≡ none
    → Extends offsets ((t, o) ∷ offsets)
unfolding find_string
add-Extends t o offsets new q p e = elim (Bool-cases (same_bytes t q)) [
  | inr other ↦ rw other e
  | inl same ↦
      let clash : find_string t offsets ≡ some p =
        subst (λ u. find_string u offsets ≡ some p) (sym (same_bytes-eq t q same)) e in
      cc (clash, new)
]

-- ids below, and from, a number on
abbrev pub Below : ℕ → List (ℕ × List ℕ) → Type 0
Below n [] = Unit
Below n ((id, bytes) ∷ rest) = (id < n) × Below n rest

abbrev pub From : ℕ → List (ℕ × List ℕ) → Type 0
From n [] = Unit
From n ((id, bytes) ∷ rest) = (n ≤ id) × From n rest

pub Below-weaken : (m n : ℕ) (chunks : List (ℕ × List ℕ)) → m ≤ n → Below m chunks → Below n chunks
Below-weaken m n [] h b = tt
Below-weaken m n ((id, bytes) ∷ rest) h (low, b) = (omega arith, Below-weaken m n rest h b)

pub From-weaken : (m n : ℕ) (chunks : List (ℕ × List ℕ)) → m ≤ n → From n chunks → From m chunks
From-weaken m n [] h b = tt
From-weaken m n ((id, bytes) ∷ rest) h (low, b) = (omega arith, From-weaken m n rest h b)

pub From-append : (n : ℕ) (xs ys : List (ℕ × List ℕ)) → From n xs → From n ys → From n (xs ++ ys)
From-append n [] ys h k = k
From-append n ((id, bytes) ∷ xs) ys (low, h) k = (low, From-append n xs ys h k)

pub Below-append :
    (n : ℕ) (xs ys : List (ℕ × List ℕ)) → Below n xs → Below n ys → Below n (xs ++ ys)
Below-append n [] ys h k = k
Below-append n ((id, bytes) ∷ xs) ys (low, h) k = (low, Below-append n xs ys h k)

put_chunk-first :
    (id : ℕ) (bytes : List ℕ) (old : List (ℕ × List ℕ))
    → Below id old
    → put_chunk id bytes old ≡ (id, bytes) ∷ old
unfolding put_chunk
put_chunk-first id bytes [] h = refl
put_chunk-first id bytes ((j, b) ∷ rest) (low, h) =
    let above : ltb id j ≡ false = ground arith in
    let other : (id == j) ≡ false = ground arith in rw (above, other)

-- the chunk of a function goes between the ones of its constants and the older ones
pub put_chunk-between :
    (id : ℕ) (bytes : List ℕ) (new old : List (ℕ × List ℕ))
    → From (suc id) new
    → Below id old
    → put_chunk id bytes (new ++ old) ≡ new ++ (id, bytes) ∷ old
unfolding put_chunk
put_chunk-between id bytes [] old h k = put_chunk-first id bytes old k
put_chunk-between id bytes ((j, b) ∷ new) old (low, h) k =
    let above : ltb id j ≡ true = ground arith in rw (above, put_chunk-between id bytes new old h k)

pub record Written (s after : Serializer) (new : List (ℕ × List ℕ)) : Type 0 where
  pub counted : s.chunk_counter ≤ after.chunk_counter
  pub limit : after.chunk_counter ≤ uint16_max
  pub extends : Extends s.strings_offset after.strings_offset
  pub chunks : after.chunks ≡ new ++ s.chunks
  pub from : From s.chunk_counter new
  pub below : Below after.chunk_counter new

-- a string leaves the chunks as they are
pub record Stored (t : Text) (o : ℕ) (s after : Serializer) : Type 0 where
  pub counter : after.chunk_counter ≡ s.chunk_counter
  pub extends : Extends s.strings_offset after.strings_offset
  pub chunks : after.chunks ≡ s.chunks
  pub known : find_string t after.strings_offset ≡ some o

module _ (packer : Packer) (emit : Bool) where
  add_string-Stored :
      (t : Text) (o : ℕ) (s after : Serializer)
      → find_string t s.strings_offset ≡ none
      → add_string packer emit t s ≡ some (o, after)
      → Stored t o s after
  unfolding add_string find_string
  add_string-Stored t o s after new h =
      let (fits, h') = none-if-some (ltb uint32_max (length s.strings_block)) _ (o, after) h in
      let (short, h'') = none-if-some (ltb uint32_max (length t)) _ (o, after) h' in
      subst (λ (r : ℕ × Serializer). Stored t r.0 s r.1) (some_eq _ _ h'')
        (record {
          counter = refl;
          extends = add-Extends t (length s.strings_block) s.strings_offset new;
          chunks = refl;
          known = rw (same_bytes_self t);
        })

  pub serialize_string-Stored :
      (t : Text) (o : ℕ) (s after : Serializer)
      → serialize_string packer emit t s ≡ some (o, after)
      → Stored t o s after
  unfolding serialize_string
  serialize_string-Stored t o s after h = elim (Option-cases (find_string t s.strings_offset)) [
    | inl new ↦ add_string-Stored t o s after new (rw new at h)
    | inr (p, old) ↦
        subst (λ (r : ℕ × Serializer). Stored t r.0 s r.1)
          (some_eq _ _ (ap (or_add_string packer emit t s) (sym old) ∙ h))
          (record { counter = refl; extends = λ q k e. e; chunks = refl; known = old })
  ]
