-- ===== src/Serialization/Steps.antt =====
-- Chunks that are read one after the other, and what they leave of the functions.
use cpp_lox.Prelude.{
  ℕ, zero, suc, ◌+◌, ◌^◌, ◌<◌, ◌≤◌, ◌≡◌, sym, ap, ◌∙◌, subst, true, false, some, List, [], ◌∷◌,
  ◌++◌, ltb, length, arith, length-append,
}
use mathlib.Core.List.{append_assoc}
use cpp_lox.Serialization.Packer.{Packer}
use cpp_lox.Serialization.Functions.{Text, Function}
use cpp_lox.Serialization.Serializer.{concat}
use cpp_lox.Serialization.Deserializer.{read_chunk, read_chunks}

module _ (packer : Packer) (strings : List (ℕ × Text)) where
  abbrev pub Functions : Type 0
  Functions = List (ℕ × Function)

  -- At any place of any block the bytes are read as a chunk, which leaves `after`.
  pub record Step (before : Functions) (bytes : List ℕ) (after : Functions) : Type 0 where
    pub long : 24 ≤ length bytes
    pub reads :
        (size : ℕ) (pre post : List ℕ)
        → length pre + length bytes ≤ size
        → size < 2 ^ 32
        → read_chunk packer strings size (pre ++ (bytes ++ post)) (length pre) before
          ≡ some (length pre + length bytes, after)

  unfoldable pub Steps : Functions → List (ℕ × List ℕ) → Functions → Type 0
  Steps before [] after = before ≡ after
  Steps before ((id, bytes) ∷ rest) after =
      (middle : Functions) × Step before bytes middle × Steps middle rest after

  pub Steps-append :
      (a b c : Functions) (xs ys : List (ℕ × List ℕ))
      → Steps a xs b
      → Steps b ys c
      → Steps a (xs ++ ys) c
  unfolding Steps
  Steps-append a b c [] ys h k = subst (λ f. Steps f ys c) (sym h) k
  Steps-append a b c ((id, bytes) ∷ xs) ys (m, s, h) k = (m, s, Steps-append m b c xs ys h k)

  -- the loop of the deserializer, on a block that is `done` up to where it stands
  pub read_chunks-Steps :
      (before after : Functions) (chunks : List (ℕ × List ℕ)) (done : List ℕ) (rounds size : ℕ)
      → Steps before chunks after
      → size ≡ length done + length (concat chunks)
      → length (concat chunks) ≤ rounds
      → size < 2 ^ 32
      → read_chunks packer rounds strings size (done ++ concat chunks) (length done) before
        ≡ some after
  unfolding Steps concat read_chunks
  read_chunks-Steps before after [] done zero size h e enough small =
      let stop : ltb (length done) size ≡ false = ground arith in rw (stop, h)
  read_chunks-Steps before after [] done (suc rounds) size h e enough small =
      let stop : ltb (length done) size ≡ false = ground arith in rw (stop, h)
  read_chunks-Steps before after ((id, bytes) ∷ rest) done zero size (m, s, h) e enough small =
      absurd (omega (arith, s.long, length-append bytes (concat rest)))
  read_chunks-Steps before after ((id, bytes) ∷ rest) done (suc rounds) size (m, s, h) e enough
        small =
      let total = length-append bytes (concat rest) in
      let more : ltb (length done) size ≡ true = ground (arith, s.long) in
      let read = s.reads size done (concat rest) (omega arith) small in
      let next =
        read_chunks-Steps m after rest (done ++ bytes) rounds size h
          (omega (arith, length-append done bytes)) (omega (arith, s.long)) small in
      rw (more, read)
        (ap (λ k. read_chunks packer rounds strings size (done ++ (bytes ++ concat rest)) k m)
            (sym (length-append done bytes))
          ∙ ap (λ b. read_chunks packer rounds strings size b (length (done ++ bytes)) m)
              (sym (append_assoc done bytes (concat rest)))
          ∙ next)
