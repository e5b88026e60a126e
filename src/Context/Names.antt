-- ===== src/Context/Names.antt =====
-- The names, the indices and the values of the globals agree.
use cpp_lox.Prelude.{
  ℕ, zero, suc, ◌+◌, ◌-◌, ◌<◌, ◌≡◌, refl, ap, ◌∙◌, sym, subst, inl, inr, false, none, some, List,
  [], ◌∷◌, ◌++◌, ◌==◌, arith, length, length-append, get_or, Bool-cases, Option-cases, Returns,
}
use cpp_lox.HashMap.Keys.{Key, Default}
use cpp_lox.HashMap.{HashMap}
use cpp_lox.HashMap.View.{view, view_congr}
use cpp_lox.HashMap.Placed.{IsKey}
use cpp_lox.HashMap.Valid.{IsValid}
use cpp_lox.HashMap.Found.{get-view}
use cpp_lox.HashMap.Fill.{Wrote}
use cpp_lox.HashMap.Methods.{insert-Wrote}
use cpp_lox.Context.{new_global, Context, add_global, get_global, get_name, get_internal_value}

get_or-before {ℓ} :
    {A : Type ℓ} (xs : List A) (y d : A) (i : ℕ)
    → i < length xs
    → get_or (xs ++ y ∷ []) i d ≡ get_or xs i d
get_or-before [] y d i h = absurd (omega arith)
get_or-before (x ∷ xs) y d zero h = refl
get_or-before (x ∷ xs) y d (suc i) h = get_or-before xs y d i (omega arith)

pub get_or-last {ℓ} : {A : Type ℓ} (xs : List A) (y d : A) → get_or (xs ++ y ∷ []) (length xs) d ≡ y
get_or-last [] y d = refl
get_or-last (x ∷ xs) y d = get_or-last xs y d

module _ {K : Type 0} ⦃key : Key K⦄ ⦃value : Default ℕ⦄ where
  pub record IsContext (c : Context K) : Type 0 where
    pub valid : IsValid c.global_names
    pub paired : length c.names ≡ length c.values
    pub named : (i : ℕ) → i < length c.values → IsKey (get_name c i)
    pub indexed : (i : ℕ) → i < length c.values → view c.global_names.slots (get_name c i) ≡ some i
    pub bounded : (name : K) (i : ℕ) → view c.global_names.slots name ≡ some i → i < length c.values

  -- `d` is `c` with the global `name` at index `i`, which it had or has got.
  pub record Known (c : Context K) (name : K) (i : ℕ) (d : Context K) : Type 0 where
    pub context : IsContext d
    pub found : view d.global_names.slots name ≡ some i
    pub again : get_global d name ≡ some (i, d)
    pub names : (j : ℕ) → j < length c.values → get_name d j ≡ get_name c j
    pub values : (j : ℕ) → j < length c.values → get_internal_value d j ≡ get_internal_value c j
    pub others :
        (other : K)
        → key.equal name other ≡ false
        → view d.global_names.slots other ≡ view c.global_names.slots other

  get_global-again :
      (c : Context K) (name : K) (i : ℕ)
      → IsValid c.global_names
      → IsKey name
      → view c.global_names.slots name ≡ some i
      → get_global c name ≡ some (i, c)
  unfolding get_global
  get_global-again c name i valid k seen = rw (get-view c.global_names valid name k, seen)

  module _ (c : Context K) (name : K) (i : ℕ) (table : HashMap K ℕ) (w : IsContext c)
      (k : IsKey name) (e : i ≡ length c.values) (unseen : view c.global_names.slots name ≡ none)
      (t : Wrote c.global_names name (some i) table) where
    abbrev added : Context K
    added = record {
      global_names = table;
      values = c.values ++ new_global ∷ [];
      names = c.names ++ name ∷ [];
    }

    width : length added.values ≡ i + 1
    width = omega (arith, e, length-append c.values (new_global ∷ []))

    name-old : (j : ℕ) → j < i → get_name added j ≡ get_name c j
    unfolding get_name
    name-old j h = get_or-before c.names name key.default j (omega (arith, w.paired))

    name-new : (j : ℕ) → j ≡ i → get_name added j ≡ name
    unfolding get_name
    name-new j h =
        ap (λ n. get_or added.names n key.default) (h ∙ e ∙ sym w.paired)
        ∙ get_or-last c.names name key.default

    at_name : view table.slots name ≡ some i
    at_name = rw (t.reads name, key.lawful.reflexive name)

    apart : (j : ℕ) → j < i → key.equal name (get_name c j) ≡ false
    apart j h = elim (Bool-cases (key.equal name (get_name c j))) [
      | inl x ↦ absurd (
          cc (
            unseen,
            view_congr c.global_names.slots name (get_name c j) x,
            w.indexed j (omega arith),
          ))
      | inr x ↦ x
    ]

    indexed : (j : ℕ) → j < length added.values → view table.slots (get_name added j) ≡ some j
    indexed j h = elim (Bool-cases (j == i)) [
      | inl x ↦
          let same : j ≡ i = ground arith in
          ap (view table.slots) (name-new j same) ∙ at_name ∙ ap some (sym same)
      | inr x ↦
          let lt : j < i = ground (arith, width) in
          ap (view table.slots) (name-old j lt)
          ∙ rw (t.reads (get_name c j), apart j lt) (w.indexed j (omega arith))
    ]

    bounded : (q : K) (j : ℕ) → view table.slots q ≡ some j → j < length added.values
    bounded q j h = elim (Bool-cases (key.equal name q)) [
      | inl x ↦
          let same : some i ≡ some j = rw (t.reads q, x) at h in
          let at_end : i ≡ j = cc same in omega (arith, width, at_end)
      | inr x ↦ omega (arith, width, w.bounded q j (rw (t.reads q, x) at h))
    ]

    added-IsContext : IsContext added
    added-IsContext = record {
      valid = t.valid;
      paired = omega (arith, w.paired, width, length-append c.names (name ∷ []));
      named = λ j h. elim (Bool-cases (j == i)) [
        | inl x ↦ subst IsKey (sym (name-new j (ground arith))) k
        | inr x ↦
            let lt : j < i = ground (arith, width) in
            subst IsKey (sym (name-old j lt)) (w.named j (omega arith))
      ];
      indexed = indexed;
      bounded = bounded;
    }

    added-Known : Known c name i added
    unfolding get_internal_value
    added-Known = record {
      context = added-IsContext;
      found = at_name;
      again = get_global-again added name i t.valid k at_name;
      names = λ j h. name-old j (omega arith);
      values = λ j h. get_or-before c.values new_global new_global j h;
      others = λ other n. rw (t.reads other, n);
    }

  -- With a name that is a key, `get_global` ends. The index is the one that the name has from then
  -- on, names and values of the globals that were there are unchanged, and the context stays
  -- well formed.
  pub get_global-Known :
      (c : Context K) (name : K)
      → IsContext c
      → IsKey name
      → Returns (get_global c name) λ r. Known c name r.0 r.1
  unfolding get_global add_global
  get_global-Known c name w k = elim (Option-cases (view c.global_names.slots name)) [
    | inr (i, seen) ↦ (
      (i, c),
      get_global-again c name i w.valid k seen,
      record {
        context = w;
        found = seen;
        again = get_global-again c name i w.valid k seen;
        names = λ j h. refl;
        values = λ j h. refl;
        others = λ other n. refl;
      },
    )
    | inl unseen ↦
        let i = length (c.values ++ new_global ∷ []) - 1 in
        let e : i ≡ length c.values = omega (arith, length-append c.values (new_global ∷ [])) in
        let ((fresh, table), run, done) = insert-Wrote c.global_names w.valid name k i in
        (
          _,
          rw (get-view c.global_names w.valid name k, unseen, add_global, run),
          added-Known c name i table w k e unseen done.1,
        )
  ]
