-- ===== src/Compiler/Declared.antt =====
-- A local that is declared, and the name that stands for it.
use cpp_lox.Prelude.{
  ℕ, ◌<◌, ◌≤◌, ◌≡◌, refl, List, [], ◌∷◌, ◌≢◌, ◌⊎◌, inl, inr, Bool-cases, Bool, true, false, none,
  some, ltb, ◌==◌, length, arith,
}
use cpp_lox.Token.{Token}
use cpp_lox.Execute.SameBytes.{same_bytes-eq, same_bytes_self}
use cpp_lox.Execute.Values.{same_bytes}
use cpp_lox.Compiler.Scopes.{Ordered, IsScoped}
use cpp_lox.Compiler.{
  Parser, Local, Compiler, report_error, max_number_of_local_variables, add_local, is_redeclared,
  declare_variable, mark_initialized, resolve_local,
}

-- no local of the scope of the depth has the name
abbrev pub Undeclared : Token → ℕ → List Local → Type 0
Undeclared token depth [] = Unit
Undeclared token depth (local ∷ rest) =
    ((local.depth ≢ depth) ⊎ (local.name.lexeme ≢ token.lexeme)) × Undeclared token depth rest

is_redeclared-Undeclared :
    (token : Token) (depth bound : ℕ) (locals : List Local)
    → bound ≤ depth
    → Ordered bound locals
    → Undeclared token depth locals
    → is_redeclared token depth locals ≡ false
unfolding is_redeclared
is_redeclared-Undeclared token depth bound [] low o u = refl
is_redeclared-Undeclared token depth bound (local ∷ rest) low (under, o) (differs, u) =
    elim (Bool-cases (ltb local.depth depth)) [
      | inl e ↦ rw e refl
      | inr e ↦ elim (Bool-cases (same_bytes local.name.lexeme token.lexeme)) [
        | inl named ↦ absurd (elim differs [
          | inl deeper ↦ deeper (ground arith)
          | inr other ↦ other (same_bytes-eq _ _ named)
        ])
        | inr other ↦
            rw (e, other) (is_redeclared-Undeclared token depth local.depth rest (omega arith) o u)
      ]
    ]

-- In a scope, where the locals lie by their depth and there are fewer than 2048, a name that no local
-- of the scope has, whatever the scopes around it declare, is declared without an error: until it is
-- initialized a use of it is an error, and from then on the name stands for the new local, whose index
-- is the number of the locals before. A second declaration in the scope is an error that changes
-- nothing.
pub declare_variable-resolve_local :
    (token : Token) (is_constant : Bool) (parser : Parser) (c : Compiler)
    → 0 < c.scope_depth
    → IsScoped c
    → Undeclared token c.scope_depth c.locals
    → length c.locals < max_number_of_local_variables
    → let after = declare_variable token is_constant parser c in
      (after.0 ≡ parser)
      × (resolve_local token parser after.1.locals ≡ (none, report_error parser))
      × (resolve_local token parser (mark_initialized after.1).locals
          ≡ (some (length c.locals), parser))
      × (declare_variable token is_constant parser after.1 ≡ (report_error parser, after.1))
unfolding declare_variable add_local mark_initialized resolve_local is_redeclared
declare_variable-resolve_local token is_constant parser c inside scoped undeclared room =
    let fresh =
      is_redeclared-Undeclared token c.scope_depth c.scope_depth c.locals (omega arith) scoped
        undeclared in
    let global : (c.scope_depth == 0) ≡ false = ground arith in
    let some_scope : ltb 0 c.scope_depth ≡ true = ground arith in
    let full : (length c.locals == max_number_of_local_variables) ≡ false = ground arith in
    let here : ltb c.scope_depth c.scope_depth ≡ false = ground arith in
    let same = same_bytes_self token.lexeme in
    (
      rw (global, fresh, full),
      rw (global, fresh, full, same),
      rw (global, fresh, full, some_scope, same),
      rw (global, fresh, full, global, here, same),
    )
