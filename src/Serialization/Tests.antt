-- ===== src/Serialization/Tests.antt =====
-- Numbers that are packed byte by byte, and a script that declares one global and holds a function.
use cpp_lox.Prelude.{
  ℕ, zero, suc, ◌+◌, ◌*◌, ◌/◌, ◌%◌, ◌^◌, ◌<◌, ◌≡◌, refl, sym, ap, ◌∙◌, subst, true, some, List, [],
  ◌∷◌, ◌++◌, length, replicate, arith,
}
use cpp_lox.HashMap.Keys.{Key, IsLawful}
use cpp_lox.HashMap.{
  empty, filled, get, new, insert, grow, load_limit, rehash, find_slot, probe, new_capacity, fill,
}
use cpp_lox.HashMap.View.{view}
use cpp_lox.HashMap.NumberKey.{number_value}
use cpp_lox.HashMap.Tuning.{new-IsValid}
use cpp_lox.Execute.Values.{same_bytes}
use cpp_lox.Context.{Context, new_global, get_global, add_global, get_name, get_internal_value}
use cpp_lox.Context.Names.{IsContext, get_global-Known}
use cpp_lox.Serialization.Packer.{Packer, encode_all}
use cpp_lox.Serialization.Functions.{
  Text, nil, number_int, string, boolean, Function, make, end, scalar, nested, count,
}
use cpp_lox.Serialization.Serializer.{
  SerializedBytecode, concat, put_chunk, flag_byte, find_string, symbols, write_lines,
  write_debug_information, add_string, serialize_string, write_chunk_header, write_scalar,
  finish_chunk, serialize_function, write_symbols, serialize_symbol_table,
  write_string_block_header, serialize_program,
}
use cpp_lox.Serialization.Written.{same_bytes-eq, same_bytes_self, some_eq}
use cpp_lox.Serialization.Trees.{Fits}
use cpp_lox.Serialization.FileHeader.{Checksum, is_compiled_lox_program, write, read}
use cpp_lox.Serialization.FileRead.{read-write}
use cpp_lox.Serialization.RoundTrip.{Loads, serialize_program-Loads}

unfoldable pack : ℕ → ℕ → List ℕ
pack zero v = []
pack (suc w) v = v % 256 ∷ pack w (v / 256)

unfoldable unpack : ℕ → List ℕ → ℕ
unpack zero bytes = 0
unpack (suc w) [] = 0
unpack (suc w) (b ∷ bytes) = b + 256 * unpack w bytes

length-pack : (w v : ℕ) → length (pack w v) ≡ w
unfolding pack
length-pack zero v = refl
length-pack (suc w) v = ap suc (length-pack w (v / 256))

unpack-pack : (w v : ℕ) (rest : List ℕ) → v < 256 ^ w → unpack w (pack w v ++ rest) ≡ v
unfolding pack unpack
unpack-pack zero v rest h = omega arith
unpack-pack (suc w) v rest h = omega (arith, unpack-pack w (v / 256) rest (omega arith))

pack-byte : (b : ℕ) → b < 256 → pack 1 b ≡ b ∷ []
unfolding pack
pack-byte b h = ap (λ v. v ∷ []) (omega arith)

unpack-byte : (b : ℕ) (rest : List ℕ) → b < 256 → unpack 1 (b ∷ rest) ≡ b
unfolding unpack
unpack-byte b rest h = omega arith

unpack-low_byte :
    (b : ℕ) (rest : List ℕ) → b < 256 → unpack 8 (pack 1 b ++ (replicate 7 0 ++ rest)) ≡ b
unfolding pack unpack replicate
unpack-low_byte b rest h = omega arith

abbrev little : Packer
little = record {
  encode = pack;
  decode = unpack;
  length_encode = length-pack;
  decode_encode = unpack-pack;
  encode_byte = pack-byte;
  decode_byte = unpack-byte;
  decode_low_byte = unpack-low_byte;
}

same_bytes_swap : (a b : Text) → same_bytes a b ≡ same_bytes b a
unfolding same_bytes
same_bytes_swap [] [] = refl
same_bytes_swap [] (y ∷ ys) = refl
same_bytes_swap (x ∷ xs) [] = refl
same_bytes_swap (x ∷ xs) (y ∷ ys) = ground (arith, same_bytes_swap xs ys)

same_bytes-Lawful : IsLawful same_bytes (λ t. length t)
same_bytes-Lawful = record {
  reflexive = same_bytes_self;
  swap = same_bytes_swap;
  chain = λ a b c h k. subst (λ t. same_bytes a t ≡ true) (same_bytes-eq b c k) h;
  hash_same = λ a b h. ap (λ t. length t) (same_bytes-eq a b h);
}

instance abbrev text_key : Key Text
text_key = record {
  hash = λ t. length t;
  default = [];
  equal = same_bytes;
  lawful = same_bytes-Lawful;
}

abbrev no_globals : Context Text
no_globals = record { global_names = new; values = []; names = [] }

no_globals-IsContext : IsContext no_globals
unfolding new view
no_globals-IsContext = record {
  valid = new-IsValid.0;
  paired = refl;
  named = λ i h. absurd (omega arith);
  indexed = λ i h. absurd (omega arith);
  bounded = λ name i h. absurd (cc h);
}

-- the global `a`
abbrev one_global : Context Text
one_global = record {
  global_names = record new {
    size = 1;
    slots =
        record { key = []; value = 0; state = empty }
        ∷ record { key = b'a' ∷ []; value = 0; state = filled }
        ∷ replicate 126 (record { key = []; value = 0; state = empty });
  };
  values = new_global ∷ [];
  names = (b'a' ∷ []) ∷ [];
}

added : get_global no_globals (b'a' ∷ []) ≡ some (0, one_global)
unfolding get_global get new add_global insert grow load_limit rehash find_slot probe replicate
    new_capacity same_bytes fill
added = refl

one_global-IsContext : IsContext one_global
unfolding same_bytes
one_global-IsContext =
    let (r, run, known) = get_global-Known no_globals (b'a' ∷ []) no_globals-IsContext refl in
    subst (λ (q : ℕ × Context Text). IsContext q.1) (some_eq r (0, one_global) (sym run ∙ added))
      known.context

abbrev inner : Function
inner = make (b'f' ∷ []) 2 1 (scalar (boolean true) (scalar nil end)) (3 ∷ 1 ∷ []) []

abbrev script : Function
script =
    make [] 0 0 (scalar (string (b'a' ∷ [])) (nested inner (scalar (number_int 300) end)))
      (1 ∷ 2 ∷ 3 ∷ []) (record { offset = 0; line_number = 7 } ∷ [])

abbrev numbers : List ℕ → List ℕ
numbers [] = []
numbers (n ∷ ns) = n ∷ 0 ∷ 0 ∷ 0 ∷ numbers ns

abbrev stored_program : SerializedBytecode
stored_program = record {
  chunk_count = 2;
  bytecode =
      b'F'
      ∷ 17
      ∷ 0
      ∷ 0
      ∷ 0
      ∷ 2
      ∷ 1
      ∷ 0
      ∷ 2
      ∷ 0
      ∷ 2
      ∷ 0
      ∷ 0
      ∷ 0
      ∷ 1
      ∷ 1
      ∷ 0
      ∷ 0
      ∷ 0
      ∷ 0
      ∷ 0
      ∷ 0
      ∷ 0
      ∷ 0
      ∷ b'B'
      ∷ 1
      ∷ 0
      ∷ 0
      ∷ 0
      ∷ 0
      ∷ 0
      ∷ 0
      ∷ 0
      ∷ b'N'
      ∷ 0
      ∷ 0
      ∷ 0
      ∷ 0
      ∷ 0
      ∷ 0
      ∷ 0
      ∷ 0
      ∷ 3
      ∷ 1
      ∷ 0
      ∷ 0
      ∷ 0
      ∷ 0
      ∷ 0
      ∷ 0
      ∷ 0
      ∷ 0
      ∷ b'F'
      ∷ 8
      ∷ 0
      ∷ 0
      ∷ 0
      ∷ 0
      ∷ 0
      ∷ 0
      ∷ 3
      ∷ 0
      ∷ 3
      ∷ 0
      ∷ 0
      ∷ 0
      ∷ 1
      ∷ 0
      ∷ 0
      ∷ 0
      ∷ 0
      ∷ 0
      ∷ 0
      ∷ 0
      ∷ 0
      ∷ 0
      ∷ b'S'
      ∷ 12
      ∷ 0
      ∷ 0
      ∷ 0
      ∷ 0
      ∷ 0
      ∷ 0
      ∷ 0
      ∷ b'F'
      ∷ 1
      ∷ 0
      ∷ 0
      ∷ 0
      ∷ 0
      ∷ 0
      ∷ 0
      ∷ 0
      ∷ b'I'
      ∷ 44
      ∷ 1
      ∷ 0
      ∷ 0
      ∷ 0
      ∷ 0
      ∷ 0
      ∷ 0
      ∷ 1
      ∷ 2
      ∷ 3
      ∷ numbers (1 ∷ 0 ∷ 0 ∷ 7 ∷ []);
  strings = numbers (3 ∷ 22 ∷ 0 ∷ 1 ∷ []) ++ (b'a' ∷ numbers (1 ∷ []) ++ b'f' ∷ []);
  globals = numbers (1 ∷ 12 ∷ 0 ∷ []);
}

written : serialize_program little true script one_global ≡ some stored_program
unfolding serialize_program serialize_function write_chunk_header serialize_string find_string
    add_string replicate write_scalar same_bytes finish_chunk write_debug_information
    serialize_symbol_table write_symbols symbols get_name write_string_block_header concat
    encode_all get_internal_value count put_chunk flag_byte write_lines pack
written = refl

script-Fits : Fits script
unfolding Fits count
script-Fits = (
  omega arith,
  omega arith,
  omega arith,
  omega arith,
  (omega arith, omega arith, tt),
  (
    tt,
    ((omega arith, omega arith, omega arith, omega arith, tt, (tt, (tt, tt))), (omega arith, tt)),
  ),
)

serialize_program-Loads_example : Loads little true script one_global no_globals stored_program
serialize_program-Loads_example =
    serialize_program-Loads little true script one_global no_globals script-Fits
      one_global-IsContext (omega arith) no_globals-IsContext refl stored_program written
      (omega arith)

-- a checksum: the sum of the bytes
abbrev sum : List ℕ → ℕ
sum [] = 0
sum (b ∷ bytes) = b + sum bytes

sum-append : (xs ys : List ℕ) → sum (xs ++ ys) ≡ sum xs + sum ys
sum-append [] ys = omega arith
sum-append (x ∷ xs) ys = omega (arith, sum-append xs ys)

abbrev byte_sum : Checksum
byte_sum = record {
  crc = λ start bytes. (start + sum bytes) % 2 ^ 32;
  crc-append = λ start xs ys. omega (arith, sum-append xs ys);
  bounded = λ start xs. omega arith;
}

read-write_example :
    (read little byte_sum (write little byte_sum stored_program) ≡ some stored_program)
    × (is_compiled_lox_program (write little byte_sum stored_program) ≡ true)
read-write_example = read-write little byte_sum stored_program (omega arith, omega arith)
