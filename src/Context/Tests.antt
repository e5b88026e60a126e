-- ===== src/Context/Tests.antt =====
-- A context in which one name, the number 5, is known.
use cpp_lox.Prelude.{ℕ, refl, [], arith, Returns}
use cpp_lox.HashMap.{new}
use cpp_lox.HashMap.View.{view}
use cpp_lox.HashMap.NumberKey.{number_key, number_value}
use cpp_lox.HashMap.Tuning.{new-IsValid}
use cpp_lox.Context.{Context, get_global}
use cpp_lox.Context.Names.{IsContext, Known, get_global-Known}

abbrev no_globals : Context ℕ
no_globals = record { global_names = new; values = []; names = [] }

no_globals-IsContext : IsContext no_globals
unfolding new view
no_globals-IsContext = record {
  valid = new-IsValid.0;
  paired = refl;
  named = λ i h. absurd (omega arith);
  indexed = λ i h. absurd (omega arith);
  bounded = λ name i h. absurd (cc h);
}

abbrev first : Returns (get_global no_globals 5) λ r. Known no_globals 5 r.0 r.1
first = get_global-Known no_globals 5 no_globals-IsContext refl

abbrev one : Context ℕ
one = first.0.1

get_global-Known_example : Returns (get_global one 9) λ r. Known one 9 r.0 r.1
get_global-Known_example = get_global-Known one 9 first.2.context refl
