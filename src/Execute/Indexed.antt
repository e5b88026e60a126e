-- ===== src/Execute/Indexed.antt =====
-- src/vm/vm.cpp, `execute`: an index of a list, in and out of its bounds.
use cpp_lox.Prelude.{
  ℕ, ◌<◌, ◌≤◌, ◌^◌, ◌≡◌, refl, ap, ◌∙◌, true, false, length, get_or, set, arith, leb, List, none,
  some,
}
use cpp_lox.Object.{Value, nil, number_int, list}
use cpp_lox.Execute.State.{
  Machine, Run, ok, runtime_error, throws, ◌>>=◌, fail, throw, return, get_state, put_state,
  set_object,
}
use cpp_lox.Execute.Values.{is_integer, is_negative, values_of}
use cpp_lox.Execute.Indices.{
  list_get, list_set, is_beyond, replace_top, load_list, store_list, value_or_throw,
}
use cpp_lox.Execute.Runs.{if_true, if_false, replaced, replace_top-ok}

beyond-false : (size i : ℕ) → i < size → is_beyond size i ≡ false
unfolding is_beyond is_negative
beyond-false size i h = ground arith

beyond-true : (size i : ℕ) → size ≤ i → i < 2 ^ 63 → is_beyond size i ≡ true
unfolding is_beyond is_negative
beyond-true size i h k = ground arith

beyond-negative : (size i : ℕ) → 2 ^ 63 ≤ i → is_beyond size i ≡ false
unfolding is_beyond is_negative
beyond-negative size i h = ground arith

list_get-in_bounds :
    (values : List Value) (i : ℕ)
    → i < length values
    → list_get values i ≡ some (get_or values i nil)
unfolding list_get
list_get-in_bounds values i h = if_false (leb (length values) i) _ _ (ground arith)

list_get-beyond : (values : List Value) (i : ℕ) → length values ≤ i → list_get values i ≡ none
unfolding list_get
list_get-beyond values i h = if_true (leb (length values) i) _ _ (ground arith)

return_bind : (v : Value) (f : Value → Run (Unit {0})) (s : Machine) → (return v >>= f) s ≡ f v s
unfolding return ◌>>=◌
return_bind v f s = refl

throw_bind : (f : Value → Run (Unit {0})) (s : Machine) → (throw >>= f) s ≡ throws
unfolding throw ◌>>=◌
throw_bind f s = refl

list_set-in_bounds :
    (values : List Value) (i : ℕ) (v : Value)
    → i < length values
    → list_set values i v ≡ set values i v
unfolding list_set
list_set-in_bounds values i v h = if_false (leb (length values) i) _ _ (ground arith)

list_set-beyond :
    (values : List Value) (i : ℕ) (v : Value) → length values ≤ i → list_set values i v ≡ values
unfolding list_set
list_set-beyond values i v h = if_true (leb (length values) i) _ _ (ground arith)

-- the values of the list of the object `a`
abbrev pub items : ℕ → Machine → List Value
items a s = values_of (s.vm.memory a)

-- What an index `i` of the list of the object `a` does, read or written: below 2 ^ 63 it is the
-- number itself, and from there on a negative one.
pub record Indexed (a i : ℕ) (v : Value) (s : Machine) : Type 0 where
  pub read :
      i < length (items a s)
      → load_list a (number_int i) s ≡ ok tt (replaced 2 (get_or (items a s) i nil) s)
  pub read_beyond :
      length (items a s) ≤ i → i < 2 ^ 63 → load_list a (number_int i) s ≡ runtime_error s
  pub read_negative : 2 ^ 63 ≤ i → load_list a (number_int i) s ≡ throws
  pub written :
      i < length (items a s)
      → store_list a (number_int i) v s
        ≡ ok tt (replaced 3 v (set_object a (list (set (items a s) i v)) s))
  pub written_beyond :
      length (items a s) ≤ i → i < 2 ^ 63 → store_list a (number_int i) v s ≡ runtime_error s
  pub written_negative :
      2 ^ 63 ≤ i
      → store_list a (number_int i) v s ≡ ok tt (replaced 3 v (set_object a (list (items a s)) s))

module _ (a i : ℕ) (s : Machine) where
  reach :
      is_beyond (length (items a s)) i ≡ false
      → load_list a (number_int i) s ≡ (value_or_throw (list_get (items a s) i) >>= replace_top 2) s
  unfolding load_list ◌>>=◌ get_state is_integer
  reach h = ap (λ (r : Run (Unit {0})). r s) (if_false (is_beyond (length (items a s)) i) _ _ h)

  miss : is_beyond (length (items a s)) i ≡ true → load_list a (number_int i) s ≡ runtime_error s
  unfolding load_list ◌>>=◌ get_state is_integer fail
  miss h = ap (λ (r : Run (Unit {0})). r s) (if_true (is_beyond (length (items a s)) i) _ _ h)

  module _ (v : Value) where
    store_reach :
        is_beyond (length (items a s)) i ≡ false
        → store_list a (number_int i) v s
          ≡ replace_top 3 v (set_object a (list (list_set (items a s) i v)) s)
    unfolding store_list ◌>>=◌ get_state put_state is_integer
    store_reach h =
        ap (λ (r : Run (Unit {0})). r s) (if_false (is_beyond (length (items a s)) i) _ _ h)

    store_miss :
        is_beyond (length (items a s)) i ≡ true → store_list a (number_int i) v s ≡ runtime_error s
    unfolding store_list ◌>>=◌ get_state is_integer fail
    store_miss h =
        ap (λ (r : Run (Unit {0})). r s) (if_true (is_beyond (length (items a s)) i) _ _ h)

    store_end :
        (values : List Value)
        → 2 < s.vm.stack_top
        → s.vm.stack_top ≤ length s.vm.evalstack
        → replace_top 3 v (set_object a (list values) s)
          ≡ ok tt (replaced 3 v (set_object a (list values) s))
    unfolding set_object
    store_end values low room = replace_top-ok 3 v _ (omega arith) (omega arith)

    -- With the operands on the stack, on a list of at most 2 ^ 63 values: an index in the list reads
    -- and writes that place, and the value takes the operands' place on the stack. An index at or
    -- above the length is a runtime error that changes nothing. A negative index makes the read
    -- throw, and the write succeed without a change of the list.
    pub list-Indexed :
        2 < s.vm.stack_top
        → s.vm.stack_top ≤ length s.vm.evalstack
        → length (items a s) ≤ 2 ^ 63
        → Indexed a i v s
    list-Indexed low room short = record {
      read = λ h.
          reach (beyond-false _ i h)
          ∙ ap (λ o. (value_or_throw o >>= replace_top 2) s) (list_get-in_bounds _ i h)
          ∙ return_bind _ _ s
          ∙ replace_top-ok 2 _ s (omega arith) (omega arith);
      read_beyond = λ h k. miss (beyond-true _ i h k);
      read_negative = λ h.
          reach (beyond-negative _ i h)
          ∙ ap (λ o. (value_or_throw o >>= replace_top 2) s) (list_get-beyond _ i (omega arith))
          ∙ throw_bind _ s;
      written = λ h.
          store_reach (beyond-false _ i h)
          ∙ ap (λ l. replace_top 3 v (set_object a (list l) s)) (list_set-in_bounds _ i v h)
          ∙ store_end _ low room;
      written_beyond = λ h k. store_miss (beyond-true _ i h k);
      written_negative = λ h.
          store_reach (beyond-negative _ i h)
          ∙ ap (λ l. replace_top 3 v (set_object a (list l) s))
              (list_set-beyond _ i v (omega arith))
          ∙ store_end _ low room;
    }
