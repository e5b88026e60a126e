-- ===== src/Lib.antt =====
-- Verification of cpp-lox, the bytecode compiler and virtual machine for Lox.
--
-- The program scans a source (src/compiler/lexer.cpp), compiles it to chunks of bytes
-- (src/compiler/compiler.cpp, src/common/chunk.cpp) and runs them on a stack machine
-- (src/vm/vm.cpp), or stores them in a file (src/serialization). Its objects are allocated and
-- collected by src/common/allocator.cpp and src/common/gc.cpp; the string pool, the globals, the
-- fields, the methods and the maps of the language are tables of include/hashmap.hpp.
--
-- Which file models what:
--   Prelude     the names and lemmas that the parts share; lists and tests on native numbers
--   Integers    signed integers over the native numbers
--   HashMap     include/hashmap.hpp, a function for each method, with its children:
--               Keys has the template parameters, View the map from keys to values that a table
--               stands for, Probe and Placed the probe sequences, Valid the invariant and grow,
--               Methods the methods against the view, DefaultKey what goes wrong at Key{}
--   Object      the values and objects of include/value.hpp, include/object.hpp and the headers of
--               the object classes, as far as they hold values and pointers
--   Gc          src/common/gc.cpp: marking; Gc/Sweeping has sweep and the cleaning of the string
--               pool (remove_unused_strings), Gc/Cycle the counters of the allocator, one collection
--               and create_object. Gc/Pointers and Gc/RootSet have the pointers that the marking
--               visits, Gc/Trace reachability, Gc/Invariant the invariant between two collections
--   OpCode      include/opcode.hpp
--   Chunk       include/chunk.hpp and src/common/chunk.cpp, with the reads of include/vm.hpp
--   Token       include/token.hpp and include/errcodes.hpp
--   Lexer       src/compiler/lexer.cpp; Lexer/Keywords has get_identifier_type
--   Upvalue     the open upvalues of src/vm/vm.cpp: capture_upvalue and close_upvalues
--   Vm          the stack and the frames of include/vm.hpp, and the calls of src/vm/vm.cpp:
--               call_value, call, invoke and invoke_from_class
--   Execute     execute and run of src/vm/vm.cpp: a function for each instruction, on runs that
--               return, fail with a runtime error, finish or throw. Execute/State has the machine,
--               made of the ones of Vm, Upvalue and Context; Execute/Keeps the rules that carry the
--               bounds of the stack through a run, Execute/Safe their use for each instruction
--   Context     include/context.hpp: the global variables
--   Compiler    src/compiler/compiler.cpp: scopes, locals, upvalues and jumps. The compilers of the
--               enclosing functions are a list, the innermost first
--   Serialization  src/serialization: Serializer and Deserializer are the two files, Functions a
--               compiled function as a value, Packer the library that packs numbers, a parameter.
--               Bodies reads one chunk, Trees to Induction all chunks of a program, Blocks and
--               StringsRead the strings, Globals to SymbolsRead the symbol table, RoundTrip puts them
--               together. FileHeader is include/file_header.hpp, FileRead its round trip. The loops
--               over a block have as many rounds as the block has bytes, which is enough for what the
--               serializer writes
--
-- How the state corresponds to the code:
--   - a pointer to an object is an address, with 0 for nullptr, and the memory is a function from
--     addresses to objects; the field is_marked is kept apart, since a collection writes only it;
--   - a vector is a list, and the last of grey_objects comes first; a byte is a number below 256;
--   - a size_t wraps at 2 ^ 64 where the code adds to a counter; the factors of a table are
--     multiples of 2 ^ -53;
--   - an exception, a loop that does not end, and a double that has no value as a size, is none. In
--     the machine they are throws and loops; a frame or a slot that lies outside its array, which
--     the code does not test, is undefined.
--
-- Bounds and fuel. A probe of a table runs as many rounds as there are slots, after which the code
-- only repeats itself; the invariant of a table keeps a slot empty, so that this never happens. The
-- trace runs one round for each object of the allocator, which is enough since an object is grey
-- once. sweep runs one round for each object, and the loops of the lexer one for each character.
--
-- What is not modelled: the libraries under subprojects and thirdparty (fmt, cxxopts, fast_float,
-- datapacker, crc32), output and the command line, which have no state of their own; the statements
-- and expressions of the compiler, and the native functions.
pub mod Prelude
pub mod Integers
pub mod HashMap
pub mod Object
pub mod Gc
pub mod OpCode
pub mod Chunk
pub mod Token
pub mod Lexer
pub mod Upvalue
pub mod Vm
pub mod Context
pub mod Execute
pub mod Serialization
pub mod Compiler
