-- ===== src/Serialization/Blocks.antt =====
-- The block of the strings: how the serializer lays it out, and what the deserializer finds in it.
use cpp_lox.Prelude.{
  ℕ, ◌+◌, ◌^◌, ◌<◌, ◌≡◌, refl, sym, ap, ◌∙◌, inl, inr, subst, Bool, true, false, some, List, [],
  ◌∷◌, ◌++◌, ltb, ◌==◌, length, replicate, arith, Bool-cases, Option-cases, length-append,
  length-replicate,
}
use mathlib.Core.List.{append_assoc}
use cpp_lox.Execute.Values.{same_bytes}
use cpp_lox.Serialization.Packer.{Packer}
use cpp_lox.Serialization.Functions.{Text}
use cpp_lox.Serialization.Serializer.{
  Serializer, find_string, add_string, or_add_string, serialize_string, uint32_max,
}
use cpp_lox.Serialization.Deserializer.{find}
use cpp_lox.Serialization.Written.{Agrees, none-if-some, some_eq, same_bytes-eq}

-- the map that the deserializer builds
abbrev pub found_strings : List (Text × ℕ) → List (ℕ × Text)
found_strings [] = []
found_strings ((t, o) ∷ rest) = (o, t) ∷ found_strings rest

module _ (packer : Packer) where
  abbrev pub entry : Text → List ℕ
  entry t = packer.encode 4 (length t) ++ t

  -- the strings lie one after the other behind the eight bytes of the header, the newest last
  unfoldable pub Laid : List (Text × ℕ) → List ℕ → Type 0
  Laid [] body = body ≡ []
  Laid ((t, o) ∷ rest) body =
      (older : List ℕ) × Laid rest older × (o ≡ 8 + length older) × (body ≡ older ++ entry t)

  pub record BlockLaid (s : Serializer) : Type 0 where
    pub body : List ℕ
    pub laid : Laid s.strings_offset body
    pub block : s.strings_block ≡ replicate 8 0 ++ body
    pub counted : s.string_count < 2 ^ 32

  pub length-entry : (t : Text) → length (entry t) ≡ 4 + length t
  length-entry t =
      omega (arith, length-append (packer.encode 4 (length t)) t, packer.length_encode 4 (length t))

  pub length-body :
      (older : List ℕ) (t : Text) → length (older ++ entry t) ≡ length older + 4 + length t
  length-body older t = omega (arith, length-append older (entry t), length-entry t)

  Laid-below :
      (offsets : List (Text × ℕ)) (body : List ℕ) (t : Text) (o : ℕ)
      → Laid offsets body
      → find_string t offsets ≡ some o
      → o < 8 + length body
  unfolding Laid find_string
  Laid-below [] body t o h e = cc
  Laid-below ((u, p) ∷ rest) body t o (older, h, at, same) e =
      let long = length-body older u in
      let long' = ap length same in
      elim (Bool-cases (same_bytes u t)) [
        | inl is ↦ let e' = some_eq p o (rw is at e) in omega arith
        | inr away ↦ let below = Laid-below rest older t o h (rw away at e) in omega arith
      ]

  pub Laid-Agrees :
      (offsets : List (Text × ℕ)) (body : List ℕ)
      → Laid offsets body
      → 8 + length body < uint32_max
      → Agrees (found_strings offsets) offsets
  unfolding Laid find_string find
  Laid-Agrees [] body h small t o e = cc
  Laid-Agrees ((u, p) ∷ rest) body (older, h, at, same) small t o e =
      let long = length-body older u in
      let long' = ap length same in
      elim (Bool-cases (same_bytes u t)) [
        | inl is ↦
            let e' = some_eq p o (rw is at e) in
            let here : (p == o) ≡ true = ground arith in
            (rw here (ap some (same_bytes-eq u t is)), omega arith)
        | inr away ↦
            let e' = rw away at e in
            let below = Laid-below rest older t o h e' in
            let there : (p == o) ≡ false = ground arith in
            let (found, low) = Laid-Agrees rest older h (omega arith) t o e' in
            (rw there found, low)
      ]

  pub serialize_string-BlockLaid :
      (emit : Bool) (t : Text) (s : Serializer) (r : ℕ × Serializer)
      → serialize_string packer emit t s ≡ some r
      → BlockLaid s
      → BlockLaid r.1
  unfolding serialize_string add_string Laid
  serialize_string-BlockLaid emit t s r h b = elim (Option-cases (find_string t s.strings_offset)) [
    | inr (p, old) ↦
        subst (λ (q : ℕ × Serializer). BlockLaid q.1)
          (some_eq (p, s) r (ap (or_add_string packer emit t s) (sym old) ∙ h)) b
    | inl new ↦
        let (fits, h') = none-if-some (ltb uint32_max (length s.strings_block)) _ r (rw new at h) in
        let (short, h'') = none-if-some (ltb uint32_max (length t)) _ r h' in
        subst (λ (q : ℕ × Serializer). BlockLaid q.1) (some_eq _ r h'')
          (record {
            body = b.body ++ entry t;
            laid = (
              b.body,
              b.laid,
              omega (
                arith,
                ap length b.block,
                length-append (replicate 8 0) b.body,
                length-replicate {A = ℕ} 8 0,
              ),
              refl,
            );
            block =
                ap (λ bytes. bytes ++ entry t) b.block
                ∙ append_assoc (replicate 8 0) b.body (entry t);
            counted = omega arith;
          })
  ]
