-- ===== src/Compiler/Locals.antt =====
-- Which local a name stands for.
use cpp_lox.Prelude.{
  ℕ, ◌≡◌, refl, ap, ◌⊎◌, inl, inr, true, false, Option, none, some, List, [], ◌∷◌, ◌++◌, ◌==◌,
  length, Bool-cases, length-append, arith,
}
use cpp_lox.Token.{Token}
use cpp_lox.Execute.Values.{same_bytes}
use cpp_lox.Compiler.{Parser, Local, report_error, resolve_local, local_at}

-- no local has the name
abbrev pub AllOther : Token → List Local → Type 0
AllOther name [] = Unit
AllOther name (local ∷ rest) =
    (same_bytes local.name.lexeme name.lexeme ≡ false) × AllOther name rest

-- the last local with the name, and what is under it
pub record Innermost (name : Token) (locals : List Local) (local : Local) (below : List Local)
    : Type 0 where
  pub above : List Local
  pub split : locals ≡ above ++ local ∷ below
  pub others : AllOther name above
  pub named : same_bytes local.name.lexeme name.lexeme ≡ true
  pub at : local_at (length below) locals ≡ some local

-- the three ways of a lookup
abbrev pub Looked : Token → Parser → List Local → Option ℕ × Parser → Type 0
Looked name parser locals r =
    (AllOther name locals × (r ≡ (none, parser)))
    ⊎ ((local : Local) × (below : List Local) × Innermost name locals local below
        × (((local.uninitialized ≡ true) × (r ≡ (none, report_error parser)))
            ⊎ ((local.uninitialized ≡ false) × (r ≡ (some (length below), parser)))))

more-Innermost :
    (name : Token) (top local : Local) (rest below : List Local)
    → same_bytes top.name.lexeme name.lexeme ≡ false
    → Innermost name rest local below
    → Innermost name (top ∷ rest) local below
unfolding local_at
more-Innermost name top local rest below other i = record {
  above = top ∷ i.above;
  split = ap (λ locals. top ∷ locals) i.split;
  others = (other, i.others);
  named = i.named;
  at =
      let longer : (length rest == length below) ≡ false =
        ground
          (arith, ap (λ locals. length locals) i.split, length-append i.above (local ∷ below)) in
      rw longer i.at;
}

top-Innermost :
    (name : Token) (top : Local) (rest : List Local)
    → same_bytes top.name.lexeme name.lexeme ≡ true
    → Innermost name (top ∷ rest) top rest
unfolding local_at
top-Innermost name top rest named = record {
  above = [];
  split = refl;
  others = tt;
  named = named;
  at = let same : (length rest == length rest) ≡ true = ground arith in rw same;
}

-- A name stands for the last local that has it: its index is the number of locals under it. Where that
-- local is not initialized an error is reported, and there is no index; where no local has the name
-- there is none either, and no error.
pub resolve_local-Looked :
    (name : Token) (parser : Parser) (locals : List Local)
    → Looked name parser locals (resolve_local name parser locals)
unfolding resolve_local
resolve_local-Looked name parser [] = inl (tt, refl)
resolve_local-Looked name parser (local ∷ rest) =
    elim (Bool-cases (same_bytes local.name.lexeme name.lexeme)) [
      | inl named ↦
          let top = top-Innermost name local rest named in
          elim (Bool-cases (local.uninitialized)) [
            | inl early ↦ inr (local, rest, top, inl (early, rw (named, early)))
            | inr ready ↦ inr (local, rest, top, inr (ready, rw (named, ready)))
          ]
      | inr other ↦ elim (resolve_local-Looked name parser rest) [
        | inl (all, r) ↦ inl ((other, all), rw other r)
        | inr (found, below, i, inl (early, r)) ↦ inr (
          found,
          below,
          more-Innermost name local found rest below other i,
          inl (early, rw other r),
        )
        | inr (found, below, i, inr (ready, r)) ↦ inr (
          found,
          below,
          more-Innermost name local found rest below other i,
          inr (ready, rw other r),
        )
      ]
    ]
