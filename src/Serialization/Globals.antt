-- ===== src/Serialization/Globals.antt =====
-- The symbol table: the names of the globals and whether they are constant, written and read back
-- into a context that has no globals.
use cpp_lox.Prelude.{
  ℕ, zero, suc, ◌+◌, ◌-◌, ◌<◌, ◌≤◌, ◌≡◌, sym, ap, ◌∙◌, inl, inr, Bool, true, false, none, some,
  List, [], ◌∷◌, ◌++◌, ◌==◌, length, get_or, ◌>>=◌, arith, Bool-cases, Option-cases, length-append,
  length-set, get_or-set,
}
use cpp_lox.HashMap.Keys.{Key, Default}
use cpp_lox.HashMap.View.{view, view_congr}
use cpp_lox.HashMap.Placed.{IsKey}
use cpp_lox.HashMap.Found.{get-view}
use cpp_lox.HashMap.{insert}
use cpp_lox.Context.{new_global, Context, add_global, get_global, get_name, get_internal_value}
use cpp_lox.Context.Names.{IsContext, Known, get_global-Known, get_or-last}
use cpp_lox.Serialization.Functions.{Text}
use cpp_lox.Serialization.Serializer.{symbols}
use cpp_lox.Serialization.Deserializer.{set_const, keep_index}
use cpp_lox.Serialization.Written.{bind-some, some_eq}

module _ ⦃key : Key Text⦄ ⦃value : Default ℕ⦄ where
  -- no name of the list is equal to `name`
  abbrev pub Apart : Text → List (Text × Bool) → Type 0
  Apart name [] = Unit
  Apart name ((other, is_const) ∷ rest) = (key.equal name other ≡ false) × Apart name rest

  -- names that can be looked up, differ from each other, and are not in the context
  abbrev pub AllNew : Context Text → List (Text × Bool) → Type 0
  AllNew context [] = Unit
  AllNew context ((name, is_const) ∷ rest) =
      IsKey name
      × (view context.global_names.slots name ≡ none)
      × Apart name rest
      × AllNew context rest

  -- the globals from `i` on are those of the list
  abbrev pub Holds : Context Text → ℕ → List (Text × Bool) → Type 0
  Holds context i [] = Unit
  Holds context i ((name, is_const) ∷ rest) =
      (get_name context i ≡ name)
      × ((get_internal_value context i).is_const ≡ is_const)
      × Holds context (suc i) rest

  -- a context with one more global
  pub record Grown (before : Context Text) (name : Text) (is_const : Bool) (after : Context Text)
      : Type 0 where
    pub context : IsContext after
    pub size : length after.values ≡ suc (length before.values)
    pub named : get_name after (length before.values) ≡ name
    pub constant : (get_internal_value after (length before.values)).is_const ≡ is_const
    pub names : (j : ℕ) → j < length before.values → get_name after j ≡ get_name before j
    pub values :
        (j : ℕ)
        → j < length before.values
        → get_internal_value after j ≡ get_internal_value before j
    pub others :
        (other : Text)
        → key.equal name other ≡ false
        → view after.global_names.slots other ≡ view before.global_names.slots other

  set_const-IsContext :
      (context : Context Text) (i : ℕ) (is_const : Bool)
      → IsContext context
      → IsContext (set_const i is_const context)
  unfolding set_const get_name
  set_const-IsContext context i is_const w =
      let same =
        length-set context.values i
          (record (get_internal_value context i) { is_const = is_const }) in
      record {
        valid = w.valid;
        paired = w.paired ∙ sym same;
        named = λ j h. w.named j (omega arith);
        indexed = λ j h. w.indexed j (omega arith);
        bounded = λ name j h. omega (arith, w.bounded name j h);
      }

  -- what `get_global` does with a new name
  abbrev Appended : Context Text → Text → ℕ → Context Text → Type 0
  Appended context name i after =
      (i ≡ length context.values)
      × (after.values ≡ context.values ++ new_global ∷ [])
      × (after.names ≡ context.names ++ name ∷ [])

  get_global-Appended :
      (context after : Context Text) (name : Text) (i : ℕ)
      → IsContext context
      → IsKey name
      → view context.global_names.slots name ≡ none
      → get_global context name ≡ some (i, after)
      → Appended context name i after
  unfolding get_global add_global
  get_global-Appended context after name i w k unseen h =
      let h' : add_global context name ≡ some (i, after) =
        rw (get-view context.global_names w.valid name k, unseen) at h in
      let (table, run, e) =
        bind-some
          (insert context.global_names name (length (context.values ++ new_global ∷ []) - 1)) _
          (i, after) h' in
      let e' = some_eq _ (i, after) e in
      (
        sym (ap (λ (q : ℕ × Context Text). q.0) e')
            ∙ omega (arith, length-append context.values (new_global ∷ [])),
        sym (ap (λ (q : ℕ × Context Text). q.1.values) e'),
        sym (ap (λ (q : ℕ × Context Text). q.1.names) e'),
      )

  Appended-Grown :
      (context added : Context Text) (name : Text) (i : ℕ) (is_const : Bool)
      → IsContext context
      → Known context name i added
      → Appended context name i added
      → Grown context name is_const (set_const i is_const added)
  unfolding set_const get_name get_internal_value
  Appended-Grown context added name i is_const w known (at, values, names) =
      let new = record (get_internal_value added i) { is_const = is_const } in
      let size : length added.values ≡ suc (length context.values) =
        omega (arith, ap length values, length-append context.values (new_global ∷ [])) in
      let here : (i == length context.values) ≡ true = ground arith in
      record {
        context = set_const-IsContext added i is_const known.context;
        size = length-set added.values i new ∙ size;
        named =
            ap (λ k. get_or added.names k key.default) (sym w.paired)
            ∙ ap (λ ns. get_or ns (length context.names) key.default) names
            ∙ get_or-last context.names name key.default;
        constant =
            rw (
              get_or-set added.values i (length context.values) new new_global (omega arith),
              here,
            );
        names = known.names;
        values = λ j h.
            let other : (i == j) ≡ false = ground arith in
            rw (get_or-set added.values i j new new_global (omega arith), other) (known.values j h);
        others = known.others;
      }

  -- a round of the loop, behind the name
  pub entry-Grown :
      (context : Context Text) (name : Text) (is_const : Bool)
      → IsContext context
      → IsKey name
      → view context.global_names.slots name ≡ none
      → (after : Context Text) × ((get_global context name
            >>= keep_index (length context.values) is_const)
          ≡ some after)
        × Grown context name is_const after
  entry-Grown context name is_const w k unseen =
      let ((i, added), run, known) = get_global-Known context name w k in
      let appended = get_global-Appended context added name i w k unseen run in
      let here : (i == length context.values) ≡ true = ground (arith, appended.0) in
      (
        set_const i is_const added,
        rw (run, here),
        Appended-Grown context added name i is_const w known appended,
      )

  pub Apart-AllNew :
      (before after : Context Text) (name : Text) (is_const : Bool) (rest : List (Text × Bool))
      → Grown before name is_const after
      → Apart name rest
      → AllNew before rest
      → AllNew after rest
  Apart-AllNew before after name is_const [] g apart new = tt
  Apart-AllNew before after name is_const ((other, b) ∷ rest) g (differs, apart)
        (k, unseen, a, new) =
      (
        k,
        g.others other differs ∙ unseen,
        a,
        Apart-AllNew before after name is_const rest g apart new,
      )

  -- the symbols of a context have distinct names
  symbols-Apart :
      (context : Context Text) (j i n : ℕ)
      → IsContext context
      → j < i
      → i + n ≤ length context.values
      → Apart (get_name context j) (symbols context i n)
  unfolding symbols
  symbols-Apart context j i zero w low room = tt
  symbols-Apart context j i (suc n) w low room = (
    elim (Bool-cases (key.equal (get_name context j) (get_name context i))) [
      | inl same ↦
          let clash : some j ≡ some i =
            sym (w.indexed j (omega arith))
            ∙ view_congr context.global_names.slots (get_name context j) (get_name context i) same
            ∙ w.indexed i (omega arith) in
          let e = some_eq j i clash in absurd (omega arith)
      | inr differs ↦ differs
    ],
    symbols-Apart context j (suc i) n w (omega arith) (omega arith),
  )

  pub symbols-AllNew :
      (context empty : Context Text) (i n : ℕ)
      → IsContext context
      → IsContext empty
      → length empty.values ≡ 0
      → i + n ≤ length context.values
      → AllNew empty (symbols context i n)
  unfolding symbols
  symbols-AllNew context empty i zero w w' none_yet room = tt
  symbols-AllNew context empty i (suc n) w w' none_yet room = (
    w.named i (omega arith),
    elim (Option-cases (view empty.global_names.slots (get_name context i))) [
      | inl unseen ↦ unseen
      | inr (k, seen) ↦ absurd (omega (arith, w'.bounded (get_name context i) k seen))
    ],
    symbols-Apart context i (suc i) n w (omega arith) (omega arith),
    symbols-AllNew context empty (suc i) n w w' none_yet (omega arith),
  )
