-- ===== src/ComputedExp/Changed.antt =====
-- dm_engine/src/DM_ENG_ComputedExp.c: whether the value of an expression changed, and whether a new
-- value was pushed.
pub mod Mentions
use tr069agent.Prelude.{
  Bool, true, false, not, ◌&&◌, ◌||◌, Option, none, some, if◌then◌else◌, Bytes, str_eq,
}
use tr069agent.ComputedExp.Exp.{
  Exp, list, guard, cons, concat, logic, cmp, calc, sign, negation, ident, quote, string, num, call,
  nil,
}
use tr069agent.ComputedExp.Value.{Env, class_fct, attribute_name}
use tr069agent.ComputedExp.Eval.{eval_bool}
use tr069agent.ComputedExp.Parse.{Parsed, ok, failed, crash, out_of_fuel, computed_exp_parse}

-- The result of `_isChanged` and the flags at its `OUT` pointers, which its callers set to false.
pub record Changes : Type 0 where
  pub known : Bool
  pub changed : Bool
  pub pushed : Bool

abbrev pub unknown : Changes
unknown = record { known = false; changed = false; pushed = false }

-- A value that is no parameter.
abbrev pub constant : Changes
constant = record { known = true; changed = false; pushed = false }

-- The callback: whether the value of the parameter changed, and whether it was pushed.
abbrev pub ValueChanged : Type 0
ValueChanged = Bytes → Bool × Bool

unfoldable pub is_predefined_function : Bytes → Bool
is_predefined_function name = str_eq name class_fct

unfoldable pub parameter_changes : ValueChanged → Bytes → Changes
parameter_changes f name = record { known = true; changed = (f name).0; pushed = (f name).1 }

unfoldable pub attribute_changes : ValueChanged → Exp → Bytes → Changes
attribute_changes f arg fct = elim (attribute_name arg fct) [
  | none ↦ unknown
  | some name ↦ parameter_changes f name
]

-- The right side is asked unless the left one is unknown, or has both flags already.
unfoldable pub both_changes : Changes → Changes → Changes
both_changes l r =
    if l.known && not (l.changed && l.pushed)
    then record { known = r.known; changed = l.changed || r.changed; pushed = l.pushed || r.pushed }
    else l

unfoldable pub guard_changes : Option Bool → Changes → Changes
guard_changes (some true) c = c
guard_changes _ c = unknown

unfoldable pub is_changed : ValueChanged → Env → Exp → Changes
is_changed f env (list l r) = both_changes (is_changed f env l) (is_changed f env r)
is_changed f env (cons l r) = both_changes (is_changed f env l) (is_changed f env r)
is_changed f env (concat l r) = both_changes (is_changed f env l) (is_changed f env r)
is_changed f env (logic op l r) = both_changes (is_changed f env l) (is_changed f env r)
is_changed f env (cmp op l r) = both_changes (is_changed f env l) (is_changed f env r)
is_changed f env (calc op l r) = both_changes (is_changed f env l) (is_changed f env r)
is_changed f env (sign op e) = is_changed f env e
is_changed f env (negation e) = is_changed f env e
is_changed f env (ident s) = parameter_changes f s
is_changed f env (call g (list a b)) =
    if is_predefined_function g
    then both_changes (is_changed f env a) (is_changed f env b)
    else attribute_changes f a g
is_changed f env (call g a) =
    if is_predefined_function g then is_changed f env a else attribute_changes f a g
is_changed f env (guard g e) = guard_changes (eval_bool env g) (is_changed f env e)
is_changed f env _ = constant

-- `DM_ENG_ComputedExp_isChanged`: `none` where the parser crashes.
unfoldable pub computed_exp_is_changed : ValueChanged → Env → Bytes → Option Changes
computed_exp_is_changed f env s = elim (computed_exp_parse s) [
  | ok (e, rest) ↦ some (is_changed f env e)
  | failed ↦ some unknown
  | crash ↦ none
  | out_of_fuel ↦ none
]
