-- ===== src/Serialization/Symbols.antt =====
-- The bytes of the symbol table.
use cpp_lox.Prelude.{
  ℕ, ◌*◌, ◌<◌, ◌≡◌, refl, sym, ap, subst, Bool, true, false, not, some, List, [], ◌∷◌, ◌++◌, ◌==◌,
  length, arith, length-append,
}
use cpp_lox.Serialization.Packer.{Packer, encode_all, length-encode_all}
use cpp_lox.Serialization.Functions.{Text}
use cpp_lox.Serialization.Serializer.{
  Serializer, flag_byte, uint32_max, serialize_string, write_symbols,
}
use cpp_lox.Serialization.Deserializer.{find}
use cpp_lox.Serialization.Written.{
  Agrees, Agrees-before, bind-some, some_eq, serialize_string-Stored,
}
use cpp_lox.Serialization.Blocks.{BlockLaid, serialize_string-BlockLaid}
use cpp_lox.Serialization.Layout.{write_symbols-Written}

-- the eight bytes of an entry
abbrev pub symbol_fields : ℕ → Bool → List (ℕ × ℕ)
symbol_fields o is_const = (4, o) ∷ (1, flag_byte is_const) ∷ (2, 0) ∷ (1, 0) ∷ []

pub flag_byte-small : (b : Bool) → flag_byte b < 256
unfolding flag_byte
flag_byte-small true = omega arith
flag_byte-small false = omega arith

pub flag_byte-back : (b : Bool) → not (flag_byte b == 0) ≡ b
unfolding flag_byte
flag_byte-back true = refl
flag_byte-back false = refl

module _ (packer : Packer) where
  -- the bytes are the entries of the symbols, whose names are known by their offsets
  unfoldable pub Entries : List (ℕ × Text) → List (Text × Bool) → List ℕ → Type 0
  Entries strings [] bytes = bytes ≡ []
  Entries strings ((name, is_const) ∷ rest) bytes =
      (o : ℕ) × (more : List ℕ) × (find o strings ≡ some name)
      × (o < uint32_max)
      × (bytes ≡ encode_all packer (symbol_fields o is_const) ++ more)
      × Entries strings rest more

  pub length-Entries :
      (strings : List (ℕ × Text)) (symbols : List (Text × Bool)) (bytes : List ℕ)
      → Entries strings symbols bytes
      → length bytes ≡ length symbols * 8
  unfolding Entries
  length-Entries strings [] bytes h = ap length h
  length-Entries strings ((name, is_const) ∷ rest) bytes (o, more, found, low, e, h) = omega (
    arith,
    ap length e,
    length-append (encode_all packer (symbol_fields o is_const)) more,
    length-encode_all packer (symbol_fields o is_const),
    length-Entries strings rest more h,
  )

  pub write_symbols-Entries :
      (emit : Bool) (symbols : List (Text × Bool)) (s : Serializer) (r : List ℕ × Serializer)
      (strings : List (ℕ × Text))
      → write_symbols packer emit symbols s ≡ some r
      → BlockLaid packer s
      → Agrees strings r.1.strings_offset
      → Entries strings symbols r.0
  unfolding write_symbols Entries
  write_symbols-Entries emit [] s r strings h b agrees =
      sym (ap (λ (q : List ℕ × Serializer). q.0) (some_eq _ r h))
  write_symbols-Entries emit ((name, is_const) ∷ rest) s r strings h b agrees =
      let ((o, one), run, h₁) = bind-some (serialize_string packer emit name s) _ r h in
      let ((more, last), run', e) = bind-some (write_symbols packer emit rest one) _ r h₁ in
      let e' = some_eq _ r e in
      let stored = serialize_string-Stored packer emit name o s one run in
      let laid = serialize_string-BlockLaid packer emit name s (o, one) run b in
      let next = write_symbols-Written packer emit rest one (more, last) run' laid in
      let agrees' : Agrees strings last.strings_offset =
        subst (λ (q : List ℕ × Serializer). Agrees strings q.1.strings_offset) (sym e') agrees in
      let (found, low) =
        Agrees-before strings one.strings_offset last.strings_offset next.extends agrees' name o
          stored.known in
      (
        o,
        more,
        found,
        low,
        sym (ap (λ (q : List ℕ × Serializer). q.0) e'),
        write_symbols-Entries emit rest one (more, last) strings run' laid agrees',
      )
