-- ===== src/Execute/Inherited.antt =====
-- src/vm/vm.cpp, `execute`: INHERIT, against the maps that the two tables of methods stand for.
use cpp_lox.Prelude.{
  ℕ, suc, ◌≡◌, refl, sym, ap, ◌∙◌, inl, inr, Bool, true, false, ◌&&◌, Option, none, some, List, [],
  ◌∷◌, Returns, Bool-cases, if◌then◌else◌, arith,
}
use cpp_lox.HashMap.Keys.{Key, Default}
use cpp_lox.HashMap.{Slot, filled, is_filled, at}
use cpp_lox.HashMap.View.{view, holds, view-none}
use cpp_lox.HashMap.Placed.{IsKey}
use cpp_lox.HashMap.Valid.{IsValid}
use cpp_lox.HashMap.Methods.{insert-Wrote}
use cpp_lox.Object.{Value, StringValueTable}
use cpp_lox.Execute.State.{Env}
use cpp_lox.Execute.Classes.{copy_methods, copy_slot}

-- the first of the two that is there
abbrev pub or_else : Option Value → Option Value → Option Value
or_else (some v) o = some v
or_else none o = o

overwritten :
    (f b : Bool) (v : Value) (o : Option Value)
    → f ≡ true
    → (if b then some v else o) ≡ or_else (if f && b then some v else none) o
overwritten true true v o h = refl
overwritten true false v o h = refl
overwritten false b v o h = cc

or_else_chain :
    (b : Bool) (v : Value) (rest o : Option Value)
    → (b ≡ true → rest ≡ none)
    → or_else rest (or_else (if b then some v else none) o) ≡ or_else (if b then some v else rest) o
or_else_chain true v rest o h = rw (h refl)
or_else_chain false v (some w) o h = refl
or_else_chain false v none o h = refl

module _ (env : Env) ⦃key : Key ℕ⦄ ⦃value : Default Value⦄ where
  -- the slots of a table, or the last ones of them
  record IsSuffix (slots : List (Slot ℕ Value)) : Type 0 where
    keyed : (i : ℕ) → (at slots i).state ≡ filled → IsKey (at slots i).key
    unique :
        (i j : ℕ)
        → (at slots i).state ≡ filled
        → (at slots j).state ≡ filled
        → key.equal (at slots i).key (at slots j).key ≡ true
        → i ≡ j

  pred_eq : (i j : ℕ) → suc i ≡ suc j → i ≡ j
  pred_eq i j h = omega arith

  tail-IsSuffix :
      (s : Slot ℕ Value) (slots : List (Slot ℕ Value)) → IsSuffix (s ∷ slots) → IsSuffix slots
  tail-IsSuffix s slots h = record {
    keyed = λ i. h.keyed (suc i);
    unique = λ i j p q e. pred_eq i j (h.unique (suc i) (suc j) p q e);
  }

  filled_of : (s : Slot ℕ Value) → is_filled s.state ≡ true → s.state ≡ filled
  unfolding is_filled
  filled_of s h = ground arith

  not_zero : (i : ℕ) → suc i ≡ 0 → ⊥
  not_zero i h = omega arith

  and_left : (b c : Bool) → (b && c) ≡ true → b ≡ true
  and_left b c h = ground arith

  and_right : (b c : Bool) → (b && c) ≡ true → c ≡ true
  and_right b c h = ground arith

  -- a key in the first slot is in no other
  rest-none :
      (s : Slot ℕ Value) (slots : List (Slot ℕ Value)) (q : ℕ)
      → IsSuffix (s ∷ slots)
      → is_filled s.state ≡ true
      → key.equal s.key q ≡ true
      → view slots q ≡ none
  unfolding is_filled
  rest-none s slots q h f e = view-none slots q λ i lt. elim (Bool-cases (holds (at slots i) q)) [
    | inr other ↦ other
    | inl same ↦ absurd (
        not_zero i (
          h.unique (suc i) 0 (filled_of (at slots i) (and_left _ _ same)) (filled_of s f)
            (key.lawful.chain _ q _ (and_right _ _ same) (sym (key.lawful.swap s.key q) ∙ e))))
  ]

  unfoldable pub Inherits : List (Slot ℕ Value) → StringValueTable → StringValueTable → Type 0
  Inherits slots m r =
      IsValid r × ((q : ℕ) → view r.slots q ≡ or_else (view slots q) (view m.slots q))

  copy_slot-Inherits :
      (s : Slot ℕ Value) (m : StringValueTable)
      → (s.state ≡ filled → IsKey s.key)
      → IsValid m
      → Returns (copy_slot env s m) (Inherits (s ∷ []) m)
  unfolding copy_slot Inherits view is_filled
  copy_slot-Inherits s m hk valid = elim (Bool-cases (is_filled s.state)) [
    | inl f ↦
        (let (r, run, (fresh, wrote)) = insert-Wrote m valid s.key (hk (filled_of s f)) s.value in
          (
            r.1,
            rw (f, run),
            (
              wrote.valid,
              λ q. wrote.reads q ∙ overwritten (is_filled s.state) (key.equal s.key q) s.value _ f,
            ),
          ))
    | inr e ↦ (m, rw e, (valid, λ q. rw e))
  ]

  copy-Inherits :
      (slots : List (Slot ℕ Value)) (m : StringValueTable)
      → IsSuffix slots
      → IsValid m
      → Returns (copy_methods env slots m) (Inherits slots m)
  unfolding copy_methods Inherits view is_filled
  copy-Inherits [] m h valid = (m, refl, (valid, λ q. refl))
  copy-Inherits (s ∷ slots) m h valid =
      let (m', run, (valid', reads)) = copy_slot-Inherits s m (h.keyed 0) valid in
      let (r, run', (valid'', reads')) = copy-Inherits slots m' (tail-IsSuffix s slots h) valid' in
      (
        r,
        rw run run',
        (
          valid'',
          λ q.
              reads' q
              ∙ ap (or_else (view slots q)) (reads q)
              ∙ or_else_chain (holds s q) s.value (view slots q) (view m.slots q)
                  (λ same. rest-none s slots q h (and_left _ _ same) (and_right _ _ same)),
        ),
      )

  -- On two valid tables of methods the loop of INHERIT ends; the table of the subclass is then
  -- valid, and has at each name the method of the superclass, or where that has none, the one it
  -- had before.
  pub copy_methods-Inherits :
      (super sub : StringValueTable)
      → IsValid super
      → IsValid sub
      → Returns (copy_methods env super.slots sub) (Inherits super.slots sub)
  copy_methods-Inherits super sub valid valid' =
      copy-Inherits super.slots sub
        (record { keyed = valid.placed.keyed; unique = valid.placed.unique }) valid'
