-- ===== src/Serialization/StringsRead.antt =====
-- The block of the strings, read back.
use cpp_lox.Prelude.{
  ℕ, zero, suc, ◌+◌, ◌-◌, ◌%◌, ◌^◌, ◌<◌, ◌≤◌, ◌≡◌, refl, sym, ap, ◌∙◌, subst, Bool, true, false,
  some, List, [], ◌∷◌, ◌++◌, ltb, leb, ◌==◌, length, replicate, drop, arith, length-append,
  length-replicate,
}
use mathlib.Core.List.{append_assoc}
use cpp_lox.Serialization.Packer.{
  Packer, encode_all, decode_all-encode_all, length-encode_all, drop-at, take-append, drop-append,
}
use cpp_lox.Serialization.Functions.{Text}
use cpp_lox.Serialization.Serializer.{Serializer, write_string_block_header, uint32_max}
use cpp_lox.Serialization.Deserializer.{add32, read_string, read_strings, deserialize_strings}
use cpp_lox.Serialization.Chunks.{drop_two}
use cpp_lox.Serialization.Written.{Agrees, none-if-some, some_eq}
use cpp_lox.Serialization.Blocks.{
  found_strings, entry, Laid, BlockLaid, length-entry, length-body, Laid-Agrees,
}

module _ (packer : Packer) where
  -- one string, at its place of the block
  string-read :
      (t : Text) (pre post : List ℕ) (size : ℕ)
      → length pre + length (entry packer t) ≤ size
      → size < 2 ^ 32
      → read_string packer size (pre ++ (entry packer t ++ post)) (length pre)
        ≡ some (length pre + length (entry packer t), t)
  unfolding read_string add32
  string-read t pre post size room small =
      let n = length t in
      let long = length-entry packer t in
      let count = packer.encode 4 n in
      let start : (length pre + 4) % 2 ^ 32 ≡ length pre + 4 = omega arith in
      let stop : (length pre + 4 + n) % 2 ^ 32 ≡ length pre + length (entry packer t) =
        omega arith in
      let in_count : ltb size (length pre + 4) ≡ false = ground arith in
      let in_text : ltb size (length pre + length (entry packer t)) ≡ false = ground arith in
      rw (
        append_assoc count t post,
        drop-append pre (count ++ (t ++ post)),
        packer.decode_encode 4 n (t ++ post) (omega arith),
        start,
        stop,
        in_count,
        in_text,
        drop_two pre count (t ++ post) 4 (packer.length_encode 4 n),
        take-append t post,
      )

  -- the same in a block and at an offset that are given
  string-at :
      (t : Text) (pre post buffer : List ℕ) (offset size : ℕ)
      → length pre ≡ offset
      → pre ++ (entry packer t ++ post) ≡ buffer
      → offset + length (entry packer t) ≤ size
      → size < 2 ^ 32
      → read_string packer size buffer offset ≡ some (offset + length (entry packer t), t)
  string-at t pre post buffer offset size e same room small =
      subst (λ b. read_string packer size b offset ≡ some (offset + length (entry packer t), t))
        same
        (subst
          (λ k.
            read_string packer size (pre ++ (entry packer t ++ post)) k
            ≡ some (k + length (entry packer t), t))
          e (string-read t pre post size (omega arith) small))

  -- a round of the loop
  next_string :
      (t : Text) (pre post buffer : List ℕ) (offset rounds size : ℕ) (strings : List (ℕ × Text))
      → length pre ≡ offset
      → pre ++ (entry packer t ++ post) ≡ buffer
      → offset + length (entry packer t) ≤ size
      → size < 2 ^ 32
      → read_strings packer (suc rounds) size buffer offset strings
        ≡ read_strings packer rounds size buffer
            (offset + length (entry packer t))
            ((offset, t) ∷ strings)
  unfolding read_strings
  next_string t pre post buffer offset rounds size strings e same room small =
      let long = length-entry packer t in
      let more : ltb offset size ≡ true = ground arith in
      rw (more, string-at t pre post buffer offset size e same room small)

  -- the strings up to a place of the block are read
  Laid-read :
      (offsets : List (Text × ℕ)) (body header more : List ℕ) (rounds size : ℕ)
      → Laid packer offsets body
      → length header ≡ 8
      → 8 + length body + length more ≤ size
      → size < 2 ^ 32
      → read_strings packer (length offsets + rounds) size (header ++ (body ++ more)) 8 []
        ≡ read_strings packer rounds size
            (header ++ (body ++ more))
            (8 + length body)
            (found_strings offsets)
  unfolding Laid
  Laid-read [] body header more rounds size h eight room small =
      subst
        (λ b.
          read_strings packer (0 + rounds) size (header ++ (b ++ more)) 8 []
          ≡ read_strings packer rounds size (header ++ (b ++ more)) (8 + length b) [])
        (sym h) (ap (λ n. read_strings packer n size (header ++ more) 8 []) (omega arith))
  Laid-read ((t, o) ∷ rest) body header more rounds size (older, h, at, same) eight room small =
      let buffer = header ++ (older ++ (entry packer t ++ more)) in
      let long = length-body packer older t in
      let long' = ap length same in
      let short = length-entry packer t in
      let before =
        Laid-read rest older header (entry packer t ++ more) (suc rounds) size h eight
          (omega (arith, length-append (entry packer t) more)) small in
      let here =
        next_string t (header ++ older) more buffer (8 + length older) rounds size
          (found_strings rest) (omega (arith, length-append header older))
          (append_assoc header older (entry packer t ++ more)) (omega arith) small in
      subst
        (λ b.
          read_strings packer (length ((t, o) ∷ rest) + rounds) size (header ++ b) 8 []
          ≡ read_strings packer rounds size (header ++ b) (8 + length body)
              ((o, t) ∷ found_strings rest))
        (sym (append_assoc older (entry packer t) more) ∙ ap (λ b. b ++ more) (sym same))
        (ap (λ n. read_strings packer n size buffer 8 []) (omega arith)
          ∙ before
          ∙ here
          ∙ ap
              (λ k.
                read_strings packer rounds size buffer k
                  ((8 + length older, t) ∷ found_strings rest))
              (omega arith)
          ∙ ap
              (λ k.
                read_strings packer rounds size buffer (8 + length body)
                  ((k, t) ∷ found_strings rest))
              (sym at))

  -- there are no more strings than bytes
  Laid-count :
      (offsets : List (Text × ℕ)) (body : List ℕ)
      → Laid packer offsets body
      → length offsets ≤ length body
  unfolding Laid
  Laid-count [] body h = omega arith
  Laid-count ((t, o) ∷ rest) body (older, h, at, same) =
      omega (arith, length-body packer older t, ap length same, Laid-count rest older h)

  stop_reading :
      (rounds size : ℕ) (buffer : List ℕ) (strings : List (ℕ × Text))
      → read_strings packer rounds size buffer size strings ≡ some strings
  unfolding read_strings
  stop_reading zero size buffer strings = let stop : ltb size size ≡ false = ground arith in rw stop
  stop_reading (suc rounds) size buffer strings =
      let stop : ltb size size ≡ false = ground arith in rw stop

  body_at_end : (body : List ℕ) → body ++ [] ≡ body
  body_at_end [] = refl
  body_at_end (x ∷ body) = ap (λ b. x ∷ b) (body_at_end body)

  -- the header and the strings behind it
  strings-read :
      (offsets : List (Text × ℕ)) (body : List ℕ) (n : ℕ)
      → Laid packer offsets body
      → n < 2 ^ 32
      → 8 + length body < 2 ^ 32
      → deserialize_strings packer (encode_all packer ((4, n) ∷ (4, 8 + length body) ∷ []) ++ body)
        ≡ some (found_strings offsets)
  unfolding deserialize_strings
  strings-read offsets body n h low small =
      let fields : List (ℕ × ℕ) = (4, n) ∷ (4, 8 + length body) ∷ [] in
      let head = encode_all packer fields in
      let eight = length-encode_all packer fields in
      let size : length (head ++ body) ≡ 8 + length body = omega (arith, length-append head body) in
      let long : ltb (8 + length body) 8 ≡ false = ground arith in
      let same : ((8 + length body) == (8 + length body)) ≡ true = ground arith in
      let enough = Laid-count offsets body h in
      let rounds : length offsets + (8 + length body - length offsets) ≡ 8 + length body =
        omega arith in
      rw (size, long, decode_all-encode_all packer fields body (low, (small, tt)), same)
        (subst
          (λ b.
            read_strings packer (8 + length body) (8 + length body) (head ++ b) 8 []
            ≡ some (found_strings offsets))
          (body_at_end body)
          (ap (λ k. read_strings packer k (8 + length body) (head ++ (body ++ [])) 8 [])
              (sym rounds)
            ∙ Laid-read offsets body head [] (8 + length body - length offsets) (8 + length body) h
                eight (omega arith) small
            ∙ stop_reading (8 + length body - length offsets) (8 + length body)
                (head ++ (body ++ [])) (found_strings offsets)))

  -- the whole block is read
  pub block-read :
      (emit : Bool) (s : Serializer) (out : List ℕ)
      → BlockLaid packer s
      → write_string_block_header packer emit s ≡ some out
      → (deserialize_strings packer out ≡ some (found_strings s.strings_offset))
        × Agrees (found_strings s.strings_offset) s.strings_offset
        × (length out < uint32_max)
  unfolding write_string_block_header
  block-read emit s out b h =
      let (short, e) = none-if-some (leb uint32_max (length s.strings_block)) _ out h in
      let size : length s.strings_block ≡ 8 + length b.body = omega (
        arith,
        ap length b.block,
        length-append (replicate 8 0) b.body,
        length-replicate {A = ℕ} 8 0,
      ) in
      let small : 8 + length b.body < uint32_max = ground arith in
      let behind : drop 8 s.strings_block ≡ b.body =
        ap (drop 8) b.block ∙ drop-at 8 (replicate 8 0) b.body (length-replicate {A = ℕ} 8 0) in
      let written : encode_all packer ((4, s.string_count) ∷ (4, 8 + length b.body) ∷ []) ++ b.body
          ≡ out =
        ap (λ k. encode_all packer ((4, s.string_count) ∷ (4, k) ∷ []) ++ b.body) (sym size)
        ∙ ap (λ t. encode_all packer ((4, s.string_count) ∷ (4, length s.strings_block) ∷ []) ++ t)
            (sym behind)
        ∙ some_eq _ out e in
      (
        ap (deserialize_strings packer) (sym written)
            ∙ strings-read s.strings_offset b.body s.string_count b.laid b.counted (omega arith),
        Laid-Agrees packer s.strings_offset b.body b.laid small,
        omega (
          arith,
          ap length written,
          length-append (encode_all packer ((4, s.string_count) ∷ (4, 8 + length b.body) ∷ []))
              b.body,
          length-encode_all packer ((4, s.string_count) ∷ (4, 8 + length b.body) ∷ []),
        ),
      )
