-- ===== src/ComputedExp/Eval.antt =====
-- dm_engine/src/DM_ENG_ComputedExp.c: the evaluation as a number, as a bool and as a text, which call
-- one another.
pub mod Agree
pub mod Range
use tr069agent.Prelude.{
  ℕ, ◌+◌, ◌%◌, Bool, true, false, Option, none, some, ltb, leb, if◌then◌else◌, Bytes, codes, [],
  ◌∷◌, str_eq,
}
use tr069agent.Common.Number.{string_to_uint, string_to_bool, uint_max}
use tr069agent.ComputedExp.Exp.{
  Exp, list, guard, cons, concat, logic, cmp, calc, sign, negation, ident, quote, string, num, call,
  nil,
}
use tr069agent.ComputedExp.Value.{
  Env, Text, uint_mod, class_fct, diff_time_fct, is_nil, attribute, calc_result, sign_result,
  date_of, diff_time, logic_result, not_result, cmp_result, text_of_value, text_of_bool,
  text_of_uint, calc_text, concat_text, guard_text,
}
use tr069agent.ComputedExp.Parse.{Parsed, ok, failed, crash, out_of_fuel, computed_exp_parse}

-- `_evalClass` for the bounds `e`, whose own number is `own`: the first class whose bound is not
-- passed.
unfoldable mutual
  pub eval_class : Env → ℕ → ℕ → Exp → Option ℕ → Option ℕ
  eval_class env val c (cons l r) own = elim (if is_nil l then some uint_max else eval_uint env l) [
    | none ↦ none
    | some borne ↦ elim (leb val borne) [
      | true ↦ some c
      | false ↦ eval_class env val ((c + 1) % uint_mod) r (eval_uint env r)
    ]
  ]
  eval_class env val c nil own = some c
  eval_class env val c e own = elim own [
    | none ↦ none
    | some borne ↦ some (if leb val borne then c else (c + 1) % uint_mod)
  ]

  pub eval_uint : Env → Exp → Option ℕ
  eval_uint env (calc op l r) = calc_result op (eval_uint env l) (eval_uint env r)
  eval_uint env (sign op e) = sign_result op (eval_uint env e)
  eval_uint env (ident s) = string_to_uint (env.get_value s)
  eval_uint env (quote s) = string_to_uint (env.get_value s)
  eval_uint env (num i) = some i
  eval_uint env (call f (list a b)) =
      if str_eq f class_fct
      then (elim (eval_uint env a) [
        | none ↦ none
        | some v ↦ eval_class env v 0 b (eval_uint env b)
      ])
      else if str_eq f diff_time_fct
      then diff_time (if is_nil a then some env.now else date_of env (eval_text env a))
          (date_of env (eval_text env b))
      else string_to_uint (attribute env a f)
  eval_uint env (call f a) =
      if str_eq f diff_time_fct
      then diff_time (some env.now) (date_of env (eval_text env a))
      else string_to_uint (attribute env a f)
  eval_uint env _ = none

  pub eval_bool : Env → Exp → Option Bool
  eval_bool env (logic op l r) = logic_result op (eval_bool env l) (eval_bool env r)
  eval_bool env (cmp op l r) =
      cmp_result op (eval_uint env l) (eval_uint env r) (eval_text env l) (eval_text env r)
  eval_bool env (negation e) = not_result (eval_bool env e)
  eval_bool env (ident s) = string_to_bool (env.get_value s)
  eval_bool env (call f (list a b)) = string_to_bool (attribute env a f)
  eval_bool env (call f a) = string_to_bool (attribute env a f)
  eval_bool env _ = none

  pub eval_text : Env → Exp → Text
  eval_text env (guard g e) = guard_text (eval_bool env g) (eval_text env e)
  eval_text env (cons l r) = concat_text (codes ":") (eval_text env l) (eval_text env r)
  eval_text env (concat l r) = concat_text [] (eval_text env l) (eval_text env r)
  eval_text env (logic op l r) = text_of_bool (logic_result op (eval_bool env l) (eval_bool env r))
  eval_text env (cmp op l r) =
      text_of_bool
        (cmp_result op (eval_uint env l) (eval_uint env r) (eval_text env l) (eval_text env r))
  eval_text env (negation e) = text_of_bool (not_result (eval_bool env e))
  eval_text env (calc op l r) = calc_text op (eval_uint env l) (eval_uint env r)
  eval_text env (sign op e) = text_of_uint (sign_result op (eval_uint env e))
  eval_text env (ident s) = text_of_value (env.get_value s)
  eval_text env (quote s) = text_of_value (env.get_value s)
  eval_text env (string s) = (true, some s)
  eval_text env (num i) = text_of_uint (some i)
  eval_text env (call f (list a b)) =
      if str_eq f class_fct
      then text_of_uint
          (elim (eval_uint env a) [ none ↦ none | some v ↦ eval_class env v 0 b (eval_uint env b) ])
      else if str_eq f diff_time_fct
      then text_of_uint (
          diff_time (if is_nil a then some env.now else date_of env (eval_text env a))
            (date_of env (eval_text env b)))
      else text_of_value (attribute env a f)
  eval_text env (call f a) =
      if str_eq f diff_time_fct
      then text_of_uint (diff_time (some env.now) (date_of env (eval_text env a)))
      else text_of_value (attribute env a f)
  eval_text env _ = (false, none)

-- `DM_ENG_ComputedExp_eval`: `none` where the parser crashes.
unfoldable pub computed_exp_eval : Env → Bytes → Option Text
computed_exp_eval env s = elim (computed_exp_parse s) [
  | ok (e, rest) ↦ some (eval_text env e)
  | failed ↦ some (false, none)
  | crash ↦ none
  | out_of_fuel ↦ none
]
