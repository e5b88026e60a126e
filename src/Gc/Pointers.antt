-- ===== src/Gc/Pointers.antt =====
-- The pointers in the fields of an object that are followed. The marking code is the marking of
-- those lists.
use mathlib.Core.List.{foldl}
use cpp_lox.Prelude.{
  ℕ, suc, ◌+◌, ◌≤◌, ◌<◌, ◌≡◌, refl, ap, ◌∙◌, sym, inl, inr, List, [], ◌∷◌, ◌++◌, ◌==◌,
  if◌then◌else◌, arith, Bool-cases,
}
use cpp_lox.HashMap.{HashMap, Slot, is_filled}
use cpp_lox.Object.{
  Value, nil, boolean, number_real, number_int, object, uninitialized, Object, string,
  native_function, upvalue, function, class, instance_of, bound_method, closure, list, map_of,
}
use cpp_lox.Gc.{Marking, mark_object, mark_value, mark_table, mark_map, blacken_object}

-- how often an address stands in a list
unfoldable pub count : ℕ → List ℕ → ℕ
count a [] = 0
count a (x ∷ xs) = if a == x then suc (count a xs) else count a xs

pub count-append : (a : ℕ) (xs ys : List ℕ) → count a (xs ++ ys) ≡ count a xs + count a ys
unfolding count
count-append a [] ys = omega arith
count-append a (x ∷ xs) ys = ground (arith, count-append a xs ys)

unfoldable pub value_pointers : Value → List ℕ
value_pointers (object a) = a ∷ []
value_pointers _ = []

unfoldable pub values_pointers : List Value → List ℕ
values_pointers [] = []
values_pointers (v ∷ vs) = value_pointers v ++ values_pointers vs

unfoldable pub table_pointers : List (Slot ℕ Value) → List ℕ
unfolding is_filled
table_pointers [] = []
table_pointers (s ∷ slots) =
    (if is_filled s.state then s.key ∷ value_pointers s.value else []) ++ table_pointers slots

unfoldable pub map_pointers : List (Slot Value Value) → List ℕ
unfolding is_filled
map_pointers [] = []
map_pointers (s ∷ slots) =
    (if is_filled s.state then value_pointers s.key ++ value_pointers s.value else [])
    ++ map_pointers slots

-- The pointers in the fields of an object that are followed: all of them, save the `next` of an
-- upvalue. Only the list of the open upvalues reads that one, and the `next` of an upvalue that was
-- closed stays as it was, so it may be the address of an object that is gone.
unfoldable pub pointers : Object → List ℕ
pointers string = []
pointers native_function = []
pointers (upvalue next closed) = value_pointers closed
pointers (function constants name) = name ∷ values_pointers constants
pointers (class name init_method methods) =
    name ∷ value_pointers init_method ++ table_pointers methods.slots
pointers (instance_of class_ fields) = class_ ∷ table_pointers fields.slots
pointers (bound_method receiver method) = value_pointers receiver ++ method ∷ []
pointers (closure code upvalues) = code ∷ upvalues
pointers (list values) = values_pointers values
pointers (map_of table) = map_pointers table.slots

-- The initializer of a class is one of its methods.
unfoldable pub HasInit : Object → Type 0
HasInit (class name init_method methods) =
    (a : ℕ) → count a (value_pointers init_method) ≤ count a (table_pointers methods.slots)
HasInit _ = Unit

-- those that `blacken_object` visits
unfoldable pub visited : Object → List ℕ
visited (class name init_method methods) = name ∷ table_pointers methods.slots
visited o = pointers o

pub visited-pointers :
    (o : Object) → HasInit o → (a : ℕ) → 0 < count a (pointers o) → 0 < count a (visited o)
unfolding HasInit visited pointers count
visited-pointers (class name init_method methods) h a p =
    ground (arith, count-append a (value_pointers init_method) (table_pointers methods.slots), h a)
visited-pointers string h a p = p
visited-pointers native_function h a p = p
visited-pointers (upvalue next closed) h a p = p
visited-pointers (function constants name) h a p = p
visited-pointers (instance_of class_ fields) h a p = p
visited-pointers (bound_method receiver method) h a p = p
visited-pointers (closure code upvalues) h a p = p
visited-pointers (list values) h a p = p
visited-pointers (map_of table) h a p = p

pub pointers-visited : (o : Object) (a : ℕ) → 0 < count a (visited o) → 0 < count a (pointers o)
unfolding visited pointers count
pointers-visited (class name init_method methods) a p =
    ground (arith, count-append a (value_pointers init_method) (table_pointers methods.slots))
pointers-visited string a p = p
pointers-visited native_function a p = p
pointers-visited (upvalue next closed) a p = p
pointers-visited (function constants name) a p = p
pointers-visited (instance_of class_ fields) a p = p
pointers-visited (bound_method receiver method) a p = p
pointers-visited (closure code upvalues) a p = p
pointers-visited (list values) a p = p
pointers-visited (map_of table) a p = p

abbrev pub mark_all : Marking → List ℕ → Marking
mark_all s ps = foldl mark_object s ps

pub mark_all-append :
    (s : Marking) (xs ys : List ℕ) → mark_all s (xs ++ ys) ≡ mark_all (mark_all s xs) ys
mark_all-append s [] ys = refl
mark_all-append s (x ∷ xs) ys = mark_all-append (mark_object s x) xs ys

mark_value_lem : (s : Marking) (v : Value) → mark_value s v ≡ mark_all s (value_pointers v)
unfolding mark_value value_pointers
mark_value_lem s nil = refl
mark_value_lem s uninitialized = refl
mark_value_lem s (boolean b) = refl
mark_value_lem s (number_real d) = refl
mark_value_lem s (number_int i) = refl
mark_value_lem s (object a) = refl

pub mark_values_lem :
    (s : Marking) (vs : List Value) → foldl mark_value s vs ≡ mark_all s (values_pointers vs)
unfolding values_pointers
mark_values_lem s [] = refl
mark_values_lem s (v ∷ vs) =
    ap (λ r. foldl mark_value r vs) (mark_value_lem s v)
    ∙ mark_values_lem (mark_all s (value_pointers v)) vs
    ∙ sym (mark_all-append s (value_pointers v) (values_pointers vs))

-- a loop over slots that marks a list for each
pub mark_loop :
    {A : Type 0} (step : Marking → A → Marking) (found : A → List ℕ) (all : List A → List ℕ)
    → ((s : Marking) (x : A) → step s x ≡ mark_all s (found x))
    → all [] ≡ []
    → ((x : A) (xs : List A) → all (x ∷ xs) ≡ found x ++ all xs)
    → (s : Marking) (xs : List A) → foldl step s xs ≡ mark_all s (all xs)
mark_loop step found all one nothing more s [] = ap (mark_all s) (sym nothing)
mark_loop step found all one nothing more s (x ∷ xs) =
    ap (λ r. foldl step r xs) (one s x)
    ∙ mark_loop step found all one nothing more (mark_all s (found x)) xs
    ∙ sym (mark_all-append s (found x) (all xs))
    ∙ ap (mark_all s) (sym (more x xs))

mark_table_lem :
    (s : Marking) (t : HashMap ℕ Value) → mark_table s t ≡ mark_all s (table_pointers t.slots)
unfolding mark_table table_pointers is_filled
mark_table_lem s t =
    mark_loop _ (λ x. if is_filled x.state then x.key ∷ value_pointers x.value else [])
      table_pointers
      (λ r x. elim (Bool-cases (is_filled x.state)) [
        | inl e ↦ rw e (mark_value_lem (mark_object r x.key) x.value)
        | inr e ↦ rw e
      ])
      refl (λ x xs. refl) s t.slots

mark_map_lem :
    (s : Marking) (t : HashMap Value Value) → mark_map s t ≡ mark_all s (map_pointers t.slots)
unfolding mark_map map_pointers is_filled
mark_map_lem s t =
    mark_loop _
      (λ x. if is_filled x.state then value_pointers x.key ++ value_pointers x.value else [])
      map_pointers
      (λ r x. elim (Bool-cases (is_filled x.state)) [
        | inl e ↦ rw e (
            ap (λ q. mark_value q x.value) (mark_value_lem r x.key)
            ∙ mark_value_lem (mark_all r (value_pointers x.key)) x.value
            ∙ sym (mark_all-append r (value_pointers x.key) (value_pointers x.value)))
        | inr e ↦ rw e
      ])
      refl (λ x xs. refl) s t.slots

pub blacken_lem : (s : Marking) (o : Object) → blacken_object s o ≡ mark_all s (visited o)
unfolding blacken_object visited pointers
blacken_lem s string = refl
blacken_lem s native_function = refl
blacken_lem s (upvalue next closed) = mark_value_lem s closed
blacken_lem s (function constants name) = mark_values_lem (mark_object s name) constants
blacken_lem s (class name init_method methods) = mark_table_lem (mark_object s name) methods
blacken_lem s (instance_of class_ fields) = mark_table_lem (mark_object s class_) fields
blacken_lem s (bound_method receiver method) =
    ap (λ r. mark_object r method) (mark_value_lem s receiver)
    ∙ sym (mark_all-append s (value_pointers receiver) (method ∷ []))
blacken_lem s (closure code upvalues) = refl
blacken_lem s (list values) = mark_values_lem s values
blacken_lem s (map_of table) = mark_map_lem s table
