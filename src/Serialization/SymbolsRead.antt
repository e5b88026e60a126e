-- ===== src/Serialization/SymbolsRead.antt =====
-- The symbol table, read back into a context without globals.
use cpp_lox.Prelude.{
  ℕ, suc, ◌+◌, ◌*◌, ◌%◌, ◌^◌, ◌<◌, ◌≡◌, refl, sym, ap, ◌∙◌, subst, Bool, true, false, some, List,
  [], ◌∷◌, ◌++◌, ltb, ◌==◌, length, ◌>>=◌, arith, length-append,
}
use cpp_lox.HashMap.Keys.{Key, Default}
use cpp_lox.Context.{Context, get_global, get_name, get_internal_value}
use cpp_lox.Context.Names.{IsContext}
use cpp_lox.Serialization.Packer.{
  Packer, encode_all, decode_all-encode_all, length-encode_all, drop-at,
}
use cpp_lox.Serialization.Functions.{Text}
use cpp_lox.Serialization.Serializer.{Serializer, uint32_max, write_symbols, serialize_symbol_table}
use cpp_lox.Serialization.Deserializer.{find, keep_index, read_globals, deserialize_global_table}
use cpp_lox.Serialization.Written.{Agrees, bind-some, bind-then, some_eq}
use cpp_lox.Serialization.Blocks.{BlockLaid}
use cpp_lox.Serialization.Globals.{AllNew, Holds, Grown, entry-Grown, Apart-AllNew}
use cpp_lox.Serialization.Symbols.{
  symbol_fields, flag_byte-small, flag_byte-back, Entries, length-Entries, write_symbols-Entries,
}

module _ (packer : Packer) where
  module _ ⦃key : Key Text⦄ ⦃value : Default ℕ⦄ where
    -- the globals of the list, behind those that were there
    pub record Read (before : Context Text) (symbols : List (Text × Bool)) (after : Context Text)
        : Type 0 where
      pub context : IsContext after
      pub size : length after.values ≡ length before.values + length symbols
      pub holds : Holds after (length before.values) symbols
      pub names : (j : ℕ) → j < length before.values → get_name after j ≡ get_name before j
      pub values :
          (j : ℕ)
          → j < length before.values
          → get_internal_value after j ≡ get_internal_value before j

    more-Read :
        (before middle after : Context Text) (name : Text) (is_const : Bool)
        (rest : List (Text × Bool))
        → Grown before name is_const middle
        → Read middle rest after
        → Read before ((name, is_const) ∷ rest) after
    more-Read before middle after name is_const rest g r =
        let size = g.size in
        record {
          context = r.context;
          size = omega (arith, r.size);
          holds = (
            r.names (length before.values) (omega arith) ∙ g.named,
            ap (λ v. v.is_const) (r.values (length before.values) (omega arith)) ∙ g.constant,
            subst (λ n. Holds after n rest) size r.holds,
          );
          names = λ j h. r.names j (omega arith) ∙ g.names j h;
          values = λ j h. r.values j (omega arith) ∙ g.values j h;
        }

    -- one entry is read
    entry-read :
        (strings : List (ℕ × Text)) (name : Text) (is_const : Bool) (o rounds : ℕ) (more : List ℕ)
        (before middle : Context Text)
        → find o strings ≡ some name
        → o < uint32_max
        → (get_global before name >>= keep_index (length before.values) is_const) ≡ some middle
        → read_globals packer strings
            (suc rounds)
            (length before.values)
            (encode_all packer (symbol_fields o is_const) ++ more)
            before
          ≡ read_globals packer strings rounds (length before.values + 1) more middle
    unfolding read_globals
    entry-read strings name is_const o rounds more before middle found low step =
        let fields = symbol_fields o is_const in
        rw
          (
            decode_all-encode_all packer fields more
                (omega arith, (flag_byte-small is_const, (omega arith, (omega arith, tt)))),
            found,
            flag_byte-back is_const,
            drop-at 8 (encode_all packer fields) more (length-encode_all packer fields),
          )
          (bind-then (get_global before name) (keep_index (length before.values) is_const)
            (λ added. read_globals packer strings rounds (length before.values + 1) more added)
            middle step)

    read_globals-Read :
        (strings : List (ℕ × Text)) (symbols : List (Text × Bool)) (bytes : List ℕ)
        (before : Context Text)
        → Entries packer strings symbols bytes
        → IsContext before
        → AllNew before symbols
        → (after : Context Text) × (read_globals packer strings
              (length symbols)
              (length before.values)
              bytes
              before
            ≡ some after)
          × Read before symbols after
    unfolding Entries read_globals
    read_globals-Read strings [] bytes before h w new = (
      before,
      refl,
      record {
        context = w;
        size = omega arith;
        holds = tt;
        names = λ j h. refl;
        values = λ j h. refl;
      },
    )
    read_globals-Read strings ((name, is_const) ∷ rest) bytes before (o, more, found, low, e, h) w
          (k, unseen, apart, new) =
        let (middle, step, g) = entry-Grown before name is_const w k unseen in
        let (after, run, r) =
          read_globals-Read strings rest more middle h g.context
            (Apart-AllNew before middle name is_const rest g apart new) in
        (
          after,
          ap (λ b. read_globals packer strings (suc (length rest)) (length before.values) b before)
                e
              ∙ entry-read strings name is_const o (length rest) more before middle found low step
              ∙ ap (λ n. read_globals packer strings (length rest) n more middle)
                  (omega (arith, g.size))
              ∙ run,
          more-Read before middle after name is_const rest g r,
        )

    header_read :
        (strings : List (ℕ × Text)) (symbols : List (Text × Bool)) (bytes : List ℕ)
        (before after : Context Text)
        → length bytes ≡ length symbols * 8
        → length symbols < 2 ^ 16
        → read_globals packer strings (length symbols) 0 bytes before ≡ some after
        → deserialize_global_table packer strings
            (encode_all packer ((2, length symbols % 2 ^ 16) ∷ (2, 0) ∷ []) ++ bytes)
            before
          ≡ some after
    unfolding deserialize_global_table
    header_read strings symbols bytes before after long few run =
        let n = length symbols in
        let fields : List (ℕ × ℕ) = (2, n) ∷ (2, 0) ∷ [] in
        let head = encode_all packer fields in
        let same : n % 2 ^ 16 ≡ n = omega arith in
        let size : length (head ++ bytes) ≡ n * 8 + 4 =
          omega (arith, length-append head bytes, length-encode_all packer fields) in
        let room : ltb (n * 8 + 4) 4 ≡ false = ground arith in
        let exact : ((n * 8 + 4) == (n * 8 + 4)) ≡ true = ground arith in
        rw
          (
            same,
            size,
            room,
            decode_all-encode_all packer fields bytes (few, (omega arith, tt)),
            exact,
            drop-at 4 head bytes (length-encode_all packer fields),
          )
          run

    -- what the table gives where it is read
    pub record TableRead (strings : List (ℕ × Text)) (symbols : List (Text × Bool)) (table : List ℕ)
        (before : Context Text) : Type 0 where
      pub long : length table ≡ length symbols * 8 + 4
      pub after : Context Text
      pub run : deserialize_global_table packer strings table before ≡ some after
      pub read : Read before symbols after

    -- the whole table
    pub table-read :
        (emit : Bool) (strings : List (ℕ × Text)) (symbols : List (Text × Bool)) (s : Serializer)
        (r : List ℕ × Serializer) (before : Context Text)
        → serialize_symbol_table packer emit symbols s ≡ some r
        → BlockLaid packer s
        → Agrees strings r.1.strings_offset
        → length symbols < 2 ^ 16
        → IsContext before
        → AllNew before symbols
        → length before.values ≡ 0
        → TableRead strings symbols r.0 before
    unfolding serialize_symbol_table
    table-read emit strings symbols s r before h b agrees few w new none_yet =
        let ((bytes, last), run, e) = bind-some (write_symbols packer emit symbols s) _ r h in
        let head = encode_all packer ((2, length symbols % 2 ^ 16) ∷ (2, 0) ∷ []) in
        let e' : (head ++ bytes, last) ≡ r = some_eq _ r e in
        let entries =
          write_symbols-Entries packer emit symbols s (bytes, last) strings run b
            (subst (λ (q : List ℕ × Serializer). Agrees strings q.1.strings_offset) (sym e')
              agrees) in
        let long = length-Entries packer strings symbols bytes entries in
        let (after, globals_run, read) =
          read_globals-Read strings symbols bytes before entries w new in
        subst (λ (q : List ℕ × Serializer). TableRead strings symbols q.0 before) e'
          (record {
            long = omega (
              arith,
              length-append head bytes,
              length-encode_all packer ((2, length symbols % 2 ^ 16) ∷ (2, 0) ∷ []),
            );
            after = after;
            run = header_read strings symbols bytes before after long few (
                ap (λ i. read_globals packer strings (length symbols) i bytes before) (sym none_yet)
                ∙ globals_run);
            read = read;
          })
