-- ===== src/Execute/Indices.antt =====
-- src/vm/vm.cpp, `execute`: the instructions on lists, maps and the indices of strings, with the
-- parts of include/list.hpp and include/map.hpp that they call.
-- A list has fewer than 2 ^ 63 values, so that its `size()` is not negative.
use cpp_lox.Prelude.{
  ℕ, zero, suc, ◌+◌, ◌-◌, ◌^◌, Bool, true, false, not, ◌&&◌, ◌||◌, Option, none, some, List, [],
  ◌∷◌, ◌++◌, leb, length, get_elem?, get_or, set, replicate, if◌then◌else◌,
}
use cpp_lox.Prelude
use cpp_lox.HashMap.Keys.{Key, Default}
use cpp_lox.HashMap.{new, get, assign}
use cpp_lox.Object.{Value, nil, object, ValueValueTable, string, list, map_of}
use cpp_lox.Vm.{as_object}
use cpp_lox.Execute.State.{
  Env, Machine, Run, ◌>>=◌, ◌>>◌, return, fail, throw, get_state, given, put_state, push_value,
  pop_value, peek_value, set_object, lookup, next_byte,
}
use cpp_lox.Execute.Values.{
  is_a, is_integer, as_integer, is_negative, is_unhashable, string_object, list_object, map_object,
  values_of, table_of,
}

-- `ObjectList::get` and `set`: the index becomes a `size_t`, where a negative one is 2 ^ 63 or more
unfoldable pub list_get : List Value → ℕ → Option Value
list_get values index = if leb (length values) index then none else some (get_or values index nil)

unfoldable pub list_set : List Value → ℕ → Value → List Value
list_set values index v = if leb (length values) index then values else set values index v

-- `index >= list_obj->size()`, a comparison of signed numbers
unfoldable pub is_beyond : ℕ → ℕ → Bool
is_beyond size index = not (is_negative index) && leb size index

unfoldable pub pop_times : ℕ → Run (Unit {0})
pop_times zero = return tt
pop_times (suc n) = pop_value >>= λ popped. pop_times n

-- the operands are popped, and the result takes their place
unfoldable pub replace_top : ℕ → Value → Run (Unit {0})
unfolding pop_times
replace_top n v = pop_times n >> push_value v

-- the body of the loop of LIST
unfoldable pub fill_one : ℕ → ℕ → Run (Unit {0})
fill_one made i = do
  v ← peek_value 0
  s ← get_state
  put_state (set_object made (list (list_set (values_of (s.vm.memory made)) i v)) s)
  popped ← pop_value
  return tt

-- the loop, from the last place
unfoldable pub fill_list : ℕ → ℕ → Run (Unit {0})
fill_list made zero = return tt
fill_list made (suc i) = fill_one made i >> fill_list made i

-- a list as the container of an index
unfoldable pub store_list : ℕ → Value → Value → Run (Unit {0})
store_list a key v = do
  s ← get_state
  let values = values_of (s.vm.memory a)
  if (not (is_integer key) || is_beyond (length values) (as_integer key)) then (fail) else (do
    put_state (set_object a (list (list_set values (as_integer key) v)) s)
    replace_top 3 v)

-- `.value()` of what `ObjectList::get` gives: without a value it throws
abbrev pub value_or_throw : Option Value → Run Value
value_or_throw (some v) = return v
value_or_throw none = throw

unfoldable pub load_list : ℕ → Value → Run (Unit {0})
load_list a key = do
  s ← get_state
  let values = values_of (s.vm.memory a)
  if (not (is_integer key) || is_beyond (length values) (as_integer key))
      then (fail)
      else (do v ← value_or_throw (list_get values (as_integer key)); replace_top 2 v)

module _ (env : Env) where
  unfoldable pub run_list : ℕ → Run (Unit {0})
  run_list fresh = do
    list_length ← next_byte env
    s ← get_state
    put_state (set_object fresh (list (replicate list_length nil)) s)
    fill_list fresh list_length
    push_value (object fresh)

  unfoldable pub run_list_append : Run (Unit {0})
  run_list_append = do
    container ← peek_value 1
    v ← peek_value 0
    s ← get_state
    let a = as_object container
    put_state (set_object a (list (values_of (s.vm.memory a) ++ v ∷ [])) s)
    popped ← pop_value
    return tt

  -- the index of a string is compared as a `size_t`
  unfoldable pub load_string : ℕ → Value → Run (Unit {0})
  load_string a key = do
    s ← get_state
    let characters = env.text a
    if (not (is_integer key) || leb (length characters) (as_integer key)) then (fail) else (do
      popped ← pop_times 2
      let made = env.intern (get_or characters (as_integer key) 0 ∷ [])
      after ← get_state
      put_state (set_object made string after)
      push_value (object made))

  module _ ⦃key : Key Value⦄ ⦃value : Default Value⦄ where
    -- `ObjectMap::set`: `none` where the key has no hash
    unfoldable pub map_set :
        Machine → ValueValueTable → Value → Value → Option (Option ValueValueTable)
    map_set s table k v =
        if (is_a is_unhashable s.vm.memory k)
        then (some none)
        else (Prelude.◌>>=◌ (assign table k v) λ t. some (some t))

    unfoldable pub store_map : ℕ → Value → Value → Run (Unit {0})
    store_map a k v = do
      s ← get_state
      stored ← lookup (map_set s (table_of (s.vm.memory a)) k v)
      given stored (λ table. do put_state (set_object a (map_of table) s); replace_top 3 v) (fail)

    unfoldable pub run_store_index : Run (Unit {0})
    run_store_index = do
      container ← peek_value 2
      s ← get_state
      if (is_a list_object s.vm.memory container || is_a map_object s.vm.memory container)
          then (do
            k ← peek_value 1
            v ← peek_value 0
            if (is_a map_object s.vm.memory container)
                then (store_map (as_object container) k v)
                else (store_list (as_object container) k v))
          else (fail)

    unfoldable pub load_map : ℕ → Value → Run (Unit {0})
    load_map a k = do
      s ← get_state
      found ← lookup (get (table_of (s.vm.memory a)) k)
      if (is_a is_unhashable s.vm.memory k)
          then (fail)
          else (given found (λ v. replace_top 2 v) (fail))

    abbrev pub load_indexed : Bool → Bool → ℕ → Value → Run (Unit {0})
    load_indexed true of_list a k = load_map a k
    load_indexed false true a k = load_list a k
    load_indexed false false a k = load_string a k

    unfoldable pub run_load_index : Run (Unit {0})
    run_load_index = do
      container ← peek_value 1
      s ← get_state
      let of_list = is_a list_object s.vm.memory container
      let of_map = is_a map_object s.vm.memory container
      if (of_list || is_a string_object s.vm.memory container || of_map)
          then (do k ← peek_value 0; load_indexed of_map of_list (as_object container) k)
          else (fail)

    -- the entry on top of the stack, in the map
    unfoldable pub add_entry : ℕ → Value → Run (Unit {0})
    add_entry a k = do
      v ← peek_value 0
      s ← get_state
      stored ← lookup (map_set s (table_of (s.vm.memory a)) k v)
      given stored (λ table. do put_state (set_object a (map_of table) s); pop_times 2) (fail)

    -- the body of the loop of MAP
    unfoldable pub fill_entry : ℕ → Run (Unit {0})
    fill_entry made = do k ← peek_value 1; add_entry made k

    unfoldable pub fill_map : ℕ → ℕ → Run (Unit {0})
    fill_map made zero = return tt
    fill_map made (suc rounds) = fill_entry made >> fill_map made rounds

    unfoldable pub run_map : ℕ → Run (Unit {0})
    run_map fresh = do
      map_length ← next_byte env
      s ← get_state
      put_state (set_object fresh (map_of new) s)
      fill_map fresh map_length
      push_value (object fresh)

    unfoldable pub run_map_add : Run (Unit {0})
    run_map_add = do container ← peek_value 2; k ← peek_value 1; add_entry (as_object container) k
