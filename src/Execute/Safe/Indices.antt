-- ===== src/Execute/Safe/Indices.antt =====
-- The instructions of Execute/Indices keep the bounds.
use cpp_lox.Prelude.{ℕ, zero, suc, Bool, true, false, Option, none, some}
use cpp_lox.HashMap.Keys.{Key, Default}
use cpp_lox.Object.{Value}
use cpp_lox.Execute.State.{Env}
use cpp_lox.Execute.Keeps.{Keeps, Keeps-bind, pop-Keeps, keeps_rules}
use cpp_lox.Execute.Indices.{
  pop_times, replace_top, fill_one, fill_list, store_list, value_or_throw, load_list, run_list,
  run_list_append, load_string, store_map, run_store_index, load_map, load_indexed, run_load_index,
  add_entry, fill_entry, fill_map, run_map, run_map_add,
}

module _ (room : ℕ) where
  pop_times-Keeps : (n : ℕ) → Keeps room (pop_times n)
  unfolding pop_times
  pop_times-Keeps zero = search keeps_rules
  pop_times-Keeps (suc n) = Keeps-bind room _ _ (pop-Keeps room) λ popped. pop_times-Keeps n

  replace_top-Keeps : (n : ℕ) (v : Value) → Keeps room (replace_top n v)
  unfolding replace_top
  replace_top-Keeps n v = search (keeps_rules, pop_times-Keeps)

  fill_one-Keeps : (made i : ℕ) → Keeps room (fill_one made i)
  unfolding fill_one
  fill_one-Keeps made i = search keeps_rules depth 14

  fill_list-Keeps : (made i : ℕ) → Keeps room (fill_list made i)
  unfolding fill_list
  fill_list-Keeps made zero = search keeps_rules
  fill_list-Keeps made (suc i) =
      Keeps-bind room _ _ (fill_one-Keeps made i) λ filled. fill_list-Keeps made i

  value-Keeps : (o : Option Value) → Keeps room (value_or_throw o)
  value-Keeps (some v) = search keeps_rules
  value-Keeps none = search keeps_rules

  ruleset list_rules =
      (keeps_rules, pop_times-Keeps, replace_top-Keeps, fill_list-Keeps, value-Keeps)

  store_list-Keeps : (a : ℕ) (k v : Value) → Keeps room (store_list a k v)
  unfolding store_list
  store_list-Keeps a k v = search list_rules depth 14

  load_list-Keeps : (a : ℕ) (k : Value) → Keeps room (load_list a k)
  unfolding load_list
  load_list-Keeps a k = search list_rules depth 14

  module _ (env : Env) where
    pub run_list-Keeps : (fresh : ℕ) → Keeps room (run_list env fresh)
    unfolding run_list
    run_list-Keeps fresh = search list_rules depth 14

    pub run_list_append-Keeps : Keeps room (run_list_append env)
    unfolding run_list_append
    run_list_append-Keeps = search list_rules depth 14

    load_string-Keeps : (a : ℕ) (k : Value) → Keeps room (load_string env a k)
    unfolding load_string
    load_string-Keeps a k = search list_rules depth 14

    module _ ⦃key : Key Value⦄ ⦃value : Default Value⦄ where
      store_map-Keeps : (a : ℕ) (k v : Value) → Keeps room (store_map env a k v)
      unfolding store_map
      store_map-Keeps a k v = search list_rules depth 14

      load_map-Keeps : (a : ℕ) (k : Value) → Keeps room (load_map env a k)
      unfolding load_map
      load_map-Keeps a k = search list_rules depth 14

      pub run_store_index-Keeps : Keeps room (run_store_index env)
      unfolding run_store_index
      run_store_index-Keeps = search (keeps_rules, store_map-Keeps, store_list-Keeps) depth 14

      load_indexed-Keeps :
          (of_map of_list : Bool) (a : ℕ) (k : Value)
          → Keeps room (load_indexed env of_map of_list a k)
      load_indexed-Keeps true of_list a k = load_map-Keeps a k
      load_indexed-Keeps false true a k = load_list-Keeps a k
      load_indexed-Keeps false false a k = load_string-Keeps a k

      pub run_load_index-Keeps : Keeps room (run_load_index env)
      unfolding run_load_index
      run_load_index-Keeps = search (keeps_rules, load_indexed-Keeps) depth 14

      add_entry-Keeps : (a : ℕ) (k : Value) → Keeps room (add_entry env a k)
      unfolding add_entry
      add_entry-Keeps a k = search list_rules depth 14

      fill_entry-Keeps : (made : ℕ) → Keeps room (fill_entry env made)
      unfolding fill_entry
      fill_entry-Keeps made = search (keeps_rules, add_entry-Keeps)

      fill_map-Keeps : (made rounds : ℕ) → Keeps room (fill_map env made rounds)
      unfolding fill_map
      fill_map-Keeps made zero = search keeps_rules
      fill_map-Keeps made (suc rounds) =
          Keeps-bind room _ _ (fill_entry-Keeps made) λ filled. fill_map-Keeps made rounds

      pub run_map-Keeps : (fresh : ℕ) → Keeps room (run_map env fresh)
      unfolding run_map
      run_map-Keeps fresh = search (keeps_rules, fill_map-Keeps) depth 14

      pub run_map_add-Keeps : Keeps room (run_map_add env)
      unfolding run_map_add
      run_map_add-Keeps = search (keeps_rules, add_entry-Keeps) depth 14
