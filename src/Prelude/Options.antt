-- ===== src/Prelude/Options.antt =====
-- Chains of options that return.
use mathlib.Core.Path.{◌≡◌, refl, ap}
use mathlib.Core.Bool.{Bool, true, false}
use mathlib.Core.Option.{Option, none, some}
use cpp_lox.Prelude.Tests.{◌>>=◌, if◌then◌else◌}

pub bind-some :
    {A B : Type 0} (m : Option A) (f : A → Option B) (b : B)
    → (m >>= f) ≡ some b
    → (a : A) × (m ≡ some a) × (f a ≡ some b)
bind-some none f b h = cc
bind-some (some a) f b h = (a, refl, h)

-- what follows a chain that returns
pub bind-then :
    {A B C : Type 0} (m : Option A) (f : A → Option B) (g : B → Option C) (b : B)
    → (m >>= f) ≡ some b
    → (m >>= λ a. f a >>= g) ≡ g b
bind-then none f g b h = cc
bind-then (some a) f g b h = ap (λ o. o >>= g) h

pub none-if-some :
    {A : Type 0} (b : Bool) (o : Option A) (a : A)
    → (if b then none else o) ≡ some a
    → (b ≡ false) × (o ≡ some a)
none-if-some true o a h = cc
none-if-some false o a h = (refl, h)

pub some_eq : {A : Type 0} (a b : A) → some a ≡ some b → a ≡ b
some_eq a b h = cc
