-- ===== src/Context.antt =====
-- include/context.hpp: the global variables, by name and by index.
-- The names are the keys of a table; `none` is a probe that does not end. An index is an `int`, as
-- long as there are fewer than 2 ^ 31 globals. `names[i]` and `values[i]` out of bounds, which the
-- code does not test, read as the default.
pub mod Names
mod Tests
use cpp_lox.Prelude.{
  ℕ, ◌+◌, ◌-◌, Bool, true, false, Option, none, some, List, [], ◌∷◌, ◌++◌, ltb, length, get_or, set,
  ◌>>=◌,
}
use cpp_lox.Integers.{ℤ, pos, negsuc}
use cpp_lox.HashMap.Keys.{Key, Default}
use cpp_lox.HashMap.{HashMap, get, insert, contains, clear}
use cpp_lox.Object.{Value, nil}

pub record GlobalValue : Type 0 where
  pub value : Value
  pub defined : Bool
  pub initialized : Bool
  pub is_const : Bool
  pub is_created_by_runtime : Bool

-- `GlobalValue()`
abbrev pub new_global : GlobalValue
new_global = record {
  value = nil;
  defined = false;
  initialized = false;
  is_const = false;
  is_created_by_runtime = false;
}

pub record Context (K : Type 0) : Type 0 where
  pub global_names : HashMap K ℕ
  pub values : List GlobalValue
  pub names : List K

module _ {K : Type 0} ⦃key : Key K⦄ ⦃value : Default ℕ⦄ where
  -- The second half of `get_global`: the global is added to the table.
  unfoldable pub add_global : Context K → K → Option (ℕ × Context K)
  add_global c name =
      let values = c.values ++ new_global ∷ [] in
      insert c.global_names name (length values - 1) >>= λ inserted. some (
        length values - 1,
        record { global_names = inserted.1; values = values; names = c.names ++ name ∷ [] },
      )

  abbrev pub or_add : Context K → K → Option ℕ → Option (ℕ × Context K)
  or_add c name (some index) = some (index, c)
  or_add c name none = add_global c name

  unfoldable pub get_global : Context K → K → Option (ℕ × Context K)
  get_global c name = get c.global_names name >>= or_add c name

  unfoldable pub clear_context : Context K → Context K
  clear_context c = record { global_names = clear c.global_names; values = []; names = [] }

  -- the two overloads of `exists`
  unfoldable pub exists_name : Context K → K → Option Bool
  exists_name c name = contains c.global_names name

  unfoldable pub exists : Context K → ℤ → Bool
  exists c (negsuc n) = false
  exists c (pos index) = ltb index (length c.values)

  unfoldable pub get_internal_value : Context K → ℕ → GlobalValue
  get_internal_value c index = get_or c.values index new_global

  unfoldable pub is_defined : Context K → ℕ → Bool
  is_defined c index = (get_or c.values index new_global).defined

  unfoldable pub is_initialized : Context K → ℕ → Bool
  is_initialized c index = (get_or c.values index new_global).initialized

  unfoldable pub set_defined : Context K → ℕ → Bool → Context K
  set_defined c index new_state = record c {
    values = set c.values index (record (get_or c.values index new_global) { defined = new_state });
  }

  unfoldable pub set_initialized : Context K → ℕ → Bool → Context K
  set_initialized c index new_state = record c {
    values =
        set c.values index (record (get_or c.values index new_global) { initialized = new_state });
  }

  unfoldable pub get_name : Context K → ℕ → K
  get_name c index = get_or c.names index key.default
