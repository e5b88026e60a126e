-- ===== src/Serialization/Scalars.antt =====
-- The constants other than functions: nine bytes each, written and read back.
use cpp_lox.Prelude.{
  ℕ, suc, ◌^◌, ◌<◌, ◌≡◌, refl, sym, ap, ◌∙◌, subst, Bool, true, false, some, List, [], ◌∷◌, ◌++◌,
  leb, length, get_or, replicate, length-replicate, arith, length-append,
}
use mathlib.Core.List.{append_assoc}
use cpp_lox.Serialization.Packer.{Packer, decode_all}
use cpp_lox.Serialization.Functions.{
  Text, Scalar, nil, other, boolean, number_real, number_int, string, Function, Constants, scalar,
  nested,
}
use cpp_lox.Serialization.Serializer.{
  Serializer, flag_byte, write_scalar, serialize_string, uint32_max,
}
use cpp_lox.Serialization.Deserializer.{find, constant_of}
use cpp_lox.Serialization.Written.{Agrees, Extends, bind-some, some_eq, serialize_string-Stored}

-- numbers of 64 bits
abbrev pub ScalarFits : Scalar → Type 0
ScalarFits (number_real d) = d < 256 ^ 8
ScalarFits (number_int i) = i < 256 ^ 8
ScalarFits nil = Unit
ScalarFits other = Unit
ScalarFits (boolean b) = Unit
ScalarFits (string t) = Unit

-- what writing a constant does to the serializer
pub record ScalarWritten (s after : Serializer) : Type 0 where
  pub counter : after.chunk_counter ≡ s.chunk_counter
  pub chunks : after.chunks ≡ s.chunks
  pub extends : Extends s.strings_offset after.strings_offset

module _ (packer : Packer) where
  -- nine bytes that are read as a constant
  pub record Reads (strings : List (ℕ × Text)) (functions : List (ℕ × Function)) (bytes : List ℕ)
      (add : Constants → Constants) : Type 0 where
    pub nine : length bytes ≡ 9
    pub reads :
        (rest : List ℕ)
        → let fields = decode_all packer (1 ∷ 8 ∷ []) (bytes ++ rest) in
          constant_of strings functions (get_or fields 0 0) (get_or fields 1 0) ≡ some add

  tagged :
      (tag : ℕ) (payload : List ℕ) (v : ℕ) (rest : List ℕ)
      → tag < 256
      → packer.decode 8 (payload ++ rest) ≡ v
      → decode_all packer (1 ∷ 8 ∷ []) ((tag ∷ payload) ++ rest) ≡ tag ∷ v ∷ []
  unfolding decode_all
  tagged tag payload v rest small h = rw (packer.decode_byte tag (payload ++ rest) small, h)

  -- a constant of the tag and the payload
  pub Reads-tagged :
      (strings : List (ℕ × Text)) (functions : List (ℕ × Function)) (tag : ℕ) (payload : List ℕ)
      (v : ℕ) (add : Constants → Constants)
      → tag < 256
      → length payload ≡ 8
      → ((rest : List ℕ) → packer.decode 8 (payload ++ rest) ≡ v)
      → constant_of strings functions tag v ≡ some add
      → Reads strings functions (tag ∷ payload) add
  Reads-tagged strings functions tag payload v add small eight h k = record {
    nine = omega arith;
    reads = λ rest. rw (tagged tag payload v rest small (h rest)) k;
  }

  plain :
      (strings : List (ℕ × Text)) (functions : List (ℕ × Function)) (tag v : ℕ)
      (add : Constants → Constants)
      → tag < 256
      → v < 256 ^ 8
      → constant_of strings functions tag v ≡ some add
      → Reads strings functions (tag ∷ packer.encode 8 v) add
  plain strings functions tag v add small low k =
      Reads-tagged strings functions tag (packer.encode 8 v) v add small (packer.length_encode 8 v)
        (λ rest. packer.decode_encode 8 v rest low) k

  nil-Reads :
      (strings : List (ℕ × Text)) (functions : List (ℕ × Function))
      → Reads strings functions (b'N' ∷ replicate 8 0) (scalar nil)
  unfolding constant_of decode_all replicate
  nil-Reads strings functions = record {
    nine = refl;
    reads = λ rest. rw (packer.decode_byte b'N' (replicate 8 0 ++ rest) (omega arith));
  }

  -- one byte in the room of eight
  low_long : (b : ℕ) → length (packer.encode 1 b ++ replicate 7 0) ≡ 8
  low_long b = omega (
    arith,
    length-append (packer.encode 1 b) (replicate 7 0),
    packer.length_encode 1 b,
    length-replicate {A = ℕ} 7 0,
  )

  low_read :
      (b : ℕ) (rest : List ℕ)
      → b < 256
      → packer.decode 8 ((packer.encode 1 b ++ replicate 7 0) ++ rest) ≡ b
  low_read b rest small =
      ap (packer.decode 8) (append_assoc (packer.encode 1 b) (replicate 7 0) rest)
      ∙ packer.decode_low_byte b rest small

  boolean-Reads :
      (strings : List (ℕ × Text)) (functions : List (ℕ × Function)) (b : Bool)
      → Reads strings functions
          (b'B' ∷ (packer.encode 1 (flag_byte b) ++ replicate 7 0))
          (scalar (boolean b))
  unfolding constant_of flag_byte
  boolean-Reads strings functions true =
      Reads-tagged strings functions b'B' (packer.encode 1 1 ++ replicate 7 0) 1
        (scalar (boolean true)) (omega arith) (low_long 1) (λ rest. low_read 1 rest (omega arith))
        refl
  boolean-Reads strings functions false =
      Reads-tagged strings functions b'B' (packer.encode 1 0 ++ replicate 7 0) 0
        (scalar (boolean false)) (omega arith) (low_long 0) (λ rest. low_read 0 rest (omega arith))
        refl

  string-Reads :
      (strings : List (ℕ × Text)) (functions : List (ℕ × Function)) (t : Text) (o : ℕ)
      → find o strings ≡ some t
      → o < uint32_max
      → Reads strings functions (b'S' ∷ packer.encode 8 o) (scalar (string t))
  unfolding constant_of
  string-Reads strings functions t o found low =
      let short : leb uint32_max o ≡ false = ground arith in
      plain strings functions b'S' o (scalar (string t)) (omega arith) (omega arith)
        (rw (short, found))

  pub nested-Reads :
      (strings : List (ℕ × Text)) (functions : List (ℕ × Function)) (f : Function) (id : ℕ)
      → find id functions ≡ some f
      → id < uint32_max
      → Reads strings functions (b'F' ∷ packer.encode 8 id) (nested f)
  unfolding constant_of
  nested-Reads strings functions f id found low =
      let short : leb uint32_max id ≡ false = ground arith in
      plain strings functions b'F' id (nested f) (omega arith) (omega arith) (rw (short, found))

  number-Reads :
      (strings : List (ℕ × Text)) (functions : List (ℕ × Function)) (v : ℕ)
      → v < 256 ^ 8
      → Reads strings functions (b'R' ∷ packer.encode 8 v) (scalar (number_real v))
        × Reads strings functions (b'I' ∷ packer.encode 8 v) (scalar (number_int v))
  unfolding constant_of
  number-Reads strings functions v low = (
    plain strings functions b'R' v (scalar (number_real v)) (omega arith) low refl,
    plain strings functions b'I' v (scalar (number_int v)) (omega arith) low refl,
  )

  -- what is written is read, once the strings are known
  abbrev pub Good : Scalar → Serializer → List ℕ × Serializer → Type 0
  Good v s r =
      ScalarWritten s r.1
      × ((strings : List (ℕ × Text)) (functions : List (ℕ × Function))
          → Agrees strings r.1.strings_offset
          → Reads strings functions r.0 (scalar v))

  good :
      (v : Scalar) (s : Serializer) (bytes : List ℕ) (r : List ℕ × Serializer)
      → some (bytes, s) ≡ some r
      → ((strings : List (ℕ × Text)) (functions : List (ℕ × Function))
          → Reads strings functions bytes (scalar v))
      → Good v s r
  good v s bytes r h k = subst (Good v s) (some_eq (bytes, s) r h) (
    record { counter = refl; chunks = refl; extends = λ t o e. e },
    λ strings functions agrees. k strings functions,
  )

  pub write_scalar-Good :
      (emit : Bool) (v : Scalar) (s : Serializer) (r : List ℕ × Serializer)
      → write_scalar packer emit v s ≡ some r
      → ScalarFits v
      → Good v s r
  unfolding write_scalar
  write_scalar-Good emit nil s r h fits = good nil s _ r h nil-Reads
  write_scalar-Good emit other s r h fits = cc
  write_scalar-Good emit (boolean b) s r h fits =
      good (boolean b) s _ r h (λ strings functions. boolean-Reads strings functions b)
  write_scalar-Good emit (number_real d) s r h fits =
      good (number_real d) s _ r h (λ strings functions. (number-Reads strings functions d fits).0)
  write_scalar-Good emit (number_int i) s r h fits =
      good (number_int i) s _ r h (λ strings functions. (number-Reads strings functions i fits).1)
  write_scalar-Good emit (string t) s r h fits =
      let ((o, after), run, e) = bind-some (serialize_string packer emit t s) _ r h in
      let stored = serialize_string-Stored packer emit t o s after run in
      subst (Good (string t) s) (some_eq _ r e) (
        record { counter = stored.counter; chunks = stored.chunks; extends = stored.extends },
        λ strings functions agrees.
            let (found, low) = agrees t o stored.known in
            string-Reads strings functions t o found low,
      )

  nine :
      (tag : ℕ) (payload : List ℕ) (s : Serializer) (r : List ℕ × Serializer)
      → some (tag ∷ payload, s) ≡ some r
      → length payload ≡ 8
      → length r.0 ≡ 9
  nine tag payload s r h eight =
      ap (λ (q : List ℕ × Serializer). length q.0) (sym (some_eq (tag ∷ payload, s) r h))
      ∙ ap suc eight

  pub length-write_scalar :
      (emit : Bool) (v : Scalar) (s : Serializer) (r : List ℕ × Serializer)
      → write_scalar packer emit v s ≡ some r
      → length r.0 ≡ 9
  unfolding write_scalar
  length-write_scalar emit nil s r h =
      nine b'N' (replicate 8 0) s r h (length-replicate {A = ℕ} 8 0)
  length-write_scalar emit other s r h = cc
  length-write_scalar emit (boolean b) s r h =
      nine b'B' (packer.encode 1 (flag_byte b) ++ replicate 7 0) s r h (low_long (flag_byte b))
  length-write_scalar emit (number_real d) s r h =
      nine b'R' (packer.encode 8 d) s r h (packer.length_encode 8 d)
  length-write_scalar emit (number_int i) s r h =
      nine b'I' (packer.encode 8 i) s r h (packer.length_encode 8 i)
  length-write_scalar emit (string t) s r h =
      let ((o, after), run, e) = bind-some (serialize_string packer emit t s) _ r h in
      nine b'S' (packer.encode 8 o) after r e (packer.length_encode 8 o)
