-- ===== src/Execute/Values.antt =====
-- include/value.hpp and src/common/value.cpp: the tests of a value, and its equality.
-- The payload of an integer is the 64 bits of an `int64_t`; an overflow, which C++ leaves open,
-- wraps. A pointer to an object of another class than the code expects reads as an empty one.
use cpp_lox.Prelude.{
  ℕ, ◌+◌, ◌-◌, ◌*◌, ◌%◌, ◌^◌, Bool, true, false, not, ◌&&◌, ◌||◌, List, [], ◌∷◌, ltb, ◌==◌,
}
use cpp_lox.HashMap.{new}
use cpp_lox.Object.{
  Value, nil, uninitialized, boolean, number_real, number_int, object, Object, string,
  StringValueTable, ValueValueTable, class, instance_of, bound_method, list, map_of,
}
use cpp_lox.Vm.{Memory}
use cpp_lox.Execute.State.{Env}

abbrev pub modulus : ℕ
modulus = 2 ^ 64

unfoldable pub int_add : ℕ → ℕ → ℕ
int_add a b = (a + b) % modulus

unfoldable pub int_sub : ℕ → ℕ → ℕ
int_sub a b = (a + modulus - b) % modulus

unfoldable pub int_mul : ℕ → ℕ → ℕ
int_mul a b = a * b % modulus

unfoldable pub int_negate : ℕ → ℕ
int_negate a = (modulus - a) % modulus

-- the sign bit turned, the order of the numbers is that of the bits
unfoldable pub int_less : ℕ → ℕ → Bool
int_less a b = ltb ((a + 2 ^ 63) % modulus) ((b + 2 ^ 63) % modulus)

unfoldable pub is_negative : ℕ → Bool
is_negative a = not (ltb a (2 ^ 63))

unfoldable pub is_integer : Value → Bool
is_integer (number_int i) = true
is_integer _ = false

unfoldable pub is_real : Value → Bool
is_real (number_real d) = true
is_real _ = false

unfoldable pub is_number : Value → Bool
is_number (number_int i) = true
is_number (number_real d) = true
is_number _ = false

unfoldable pub is_object : Value → Bool
is_object (object a) = true
is_object _ = false

unfoldable pub is_uninitialized : Value → Bool
is_uninitialized uninitialized = true
is_uninitialized _ = false

unfoldable pub is_falsey : Value → Bool
is_falsey (boolean b) = not b
is_falsey nil = true
is_falsey uninitialized = true
is_falsey _ = false

-- `as_integer`, of an integer
abbrev pub as_integer : Value → ℕ
as_integer (number_int i) = i
as_integer _ = 0

abbrev pub string_object : Object → Bool
string_object string = true
string_object _ = false

abbrev pub list_object : Object → Bool
list_object (list values) = true
list_object _ = false

abbrev pub map_object : Object → Bool
map_object (map_of table) = true
map_object _ = false

abbrev pub class_object : Object → Bool
class_object (class name init_method methods) = true
class_object _ = false

abbrev pub instance_object : Object → Bool
instance_object (instance_of class_ fields) = true
instance_object _ = false

-- the tests of the class of an object, on a value
abbrev pub is_a : (Object → Bool) → Memory → Value → Bool
is_a test memory (object a) = test (memory a)
is_a test memory nil = false
is_a test memory uninitialized = false
is_a test memory (boolean b) = false
is_a test memory (number_real d) = false
is_a test memory (number_int i) = false

abbrev pub values_of : Object → List Value
values_of (list values) = values
values_of _ = []

abbrev pub table_of : Object → ValueValueTable
table_of (map_of table) = table
table_of _ = new

abbrev pub fields_of : Object → StringValueTable
fields_of (instance_of class_ fields) = fields
fields_of _ = new

abbrev pub class_of : Object → ℕ
class_of (instance_of class_ fields) = class_
class_of _ = 0

-- `hash_code() == -1`: the other hashes keep clear of -1
unfoldable pub is_unhashable : Object → Bool
is_unhashable (list values) = true
is_unhashable (map_of table) = true
is_unhashable _ = false

unfoldable pub same_bytes : List ℕ → List ℕ → Bool
same_bytes [] [] = true
same_bytes [] (y ∷ ys) = false
same_bytes (x ∷ xs) [] = false
same_bytes (x ∷ xs) (y ∷ ys) = x == y && same_bytes xs ys

module _ (env : Env) where
  -- `coerce_real`, of a number
  abbrev pub coerce_real : Value → ℕ
  coerce_real (number_int i) = env.real_of i
  coerce_real (number_real d) = d
  coerce_real _ = 0

  -- the case of two objects; `receivers` compares the receivers of bound methods. An upvalue is no
  -- value of a program. The cast of `b` to a bound method is not checked: here it is `false`.
  unfoldable pub equal_objects : (Value → Value → Bool) → Memory → ℕ → ℕ → Bool
  equal_objects receivers memory a b = elim (memory a) [
    | string ↦ same_bytes (env.text a) (env.text b)
    | bound_method receiver method ↦ elim (memory b) [
      | bound_method receiver' method' ↦ method == method' && receivers receiver receiver'
      | _ ↦ false
    ]
    | _ ↦ a == b
  ]

  abbrev pub equal_payload : (ℕ → ℕ → Bool) → Value → Value → Bool
  equal_payload objects nil nil = true
  equal_payload objects nil uninitialized = true
  equal_payload objects uninitialized nil = true
  equal_payload objects uninitialized uninitialized = true
  equal_payload objects (boolean b) (boolean c) = (b && c) || (not b && not c)
  equal_payload objects (number_int i) (number_int j) = i == j
  equal_payload objects (number_real d) (number_real e) = env.real_near d e
  equal_payload objects (object a) (object b) = objects a b
  equal_payload objects _ _ = false

  -- `Value::operator==`. The receiver of a bound method is an instance, so that the comparison
  -- goes no deeper.
  unfoldable pub equal_values : Memory → Value → Value → Bool
  unfolding equal_objects
  equal_values memory = equal_payload (equal_objects (equal_payload (λ a b. a == b)) memory)
