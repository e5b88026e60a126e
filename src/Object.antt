-- ===== src/Object.antt =====
-- include/value.hpp, include/object.hpp, include/classes.hpp, include/function.hpp,
-- include/list.hpp and include/map.hpp: the values and the objects, as far as they hold values and
-- pointers. A pointer is an address, with 0 for `nullptr`; a double is the number of its bits.
-- The code of a function, the body of a native function and the place of an open upvalue on the
-- stack hold no pointer to an object.
use cpp_lox.Prelude.{ℕ, Bool, List}
use cpp_lox.HashMap.{HashMap}

-- `Value`; `uninitialized` is the nil whose flag is set, which no other value has
pub data Value : Type 0 where
  nil uninitialized : Value
  boolean : Bool → Value
  number_real number_int object : ℕ → Value

-- `StringValueTable` and `ValueValueTable` of include/table.hpp
abbrev pub StringValueTable : Type 0
StringValueTable = HashMap ℕ Value

abbrev pub ValueValueTable : Type 0
ValueValueTable = HashMap Value Value

-- The classes below `Object`, each with its fields in the order of the source. The `next` of an
-- upvalue links the open ones; it keeps its address when the upvalue is closed.
pub data Object : Type 0 where
  string native_function : Object
  upvalue : (next : ℕ) (closed : Value) → Object
  function : (constants : List Value) (name : ℕ) → Object
  class : (name : ℕ) (init_method : Value) (methods : StringValueTable) → Object
  instance_of : (class_ : ℕ) (fields : StringValueTable) → Object
  bound_method : (receiver : Value) (method : ℕ) → Object
  closure : (function : ℕ) (upvalues : List ℕ) → Object
  list : (values : List Value) → Object
  map_of : (table : ValueValueTable) → Object
