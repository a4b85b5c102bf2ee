-- ===== src/ComputedExp/Tests.antt =====
-- The expressions of dm_engine/src/DM_ENG_ComputedExp.c on concrete inputs.
use tr069agent.Prelude.{
  ◌≡◌, ◌≢◌, refl, true, false, none, some, List, [], ◌∷◌, if◌then◌else◌, Bytes, codes, is_space,
  is_digit, is_alpha, is_alnum, arith, str_eq, contains,
}
use tr069agent.Prelude.Int.{pos}
use tr069agent.Common.Number.{
  string_to_uint, uint_at, checked_uint, read_digits, skip_spaces, at_end,
}
use tr069agent.ComputedExp.Exp.{
  Exp, calc, cmp, ident, num, plus, minus, times, lt, new_computed_exp,
}
use tr069agent.ComputedExp.Token.{
  all_tokens, token_at, unquote, tokens, span, quoted, is_name_char, is_op_char,
}
use tr069agent.ComputedExp.Token.Lexing.{Lexes, all_tokens-Lexes}
use tr069agent.ComputedExp.Parse.{
  parse_tokens, out_of_fuel, ok, crash, computed_exp_parse, parse_list, accept, close,
}
use tr069agent.ComputedExp.Level.{
  next_is, concat_at, or_at, and_at, cond_at, sum_at, prod_at, attach, prim_of, literal,
  number_or_name, starts_name,
}
use tr069agent.ComputedExp.Parse.Termination.{parse_tokens-ne-out_of_fuel}
use tr069agent.ComputedExp.Value.{Env, calc_result, calc_uint, cmp_result, cmp_test}
use tr069agent.ComputedExp.Eval.{eval_uint, eval_bool, eval_text}
use tr069agent.ComputedExp.Eval.Agree.{eval_text-eval_uint}
use tr069agent.ComputedExp.Changed.{is_changed, ValueChanged, both_changes, parameter_changes}
use tr069agent.ComputedExp.Changed.Mentions.{is_changed-mentions, mentions, some_of}

token_list :
    all_tokens (codes "a.b+ 12>='x y'")
    ≡ some (codes "a.b" ∷ codes "+" ∷ codes "12" ∷ codes ">=" ∷ codes "'x y'" ∷ [])
unfolding all_tokens tokens token_at span quoted is_name_char is_op_char is_alnum is_alpha is_digit
    is_space skip_spaces contains
token_list = refl

precedence :
    computed_exp_parse (codes "1+2*x-4")
    ≡ ok (calc minus (calc plus (num 1) (calc times (num 2) (ident (codes "x")))) (num 4), [])
unfolding computed_exp_parse parse_tokens parse_list accept next_is concat_at or_at and_at cond_at
    sum_at prod_at attach new_computed_exp close prim_of literal number_or_name starts_name
    string_to_uint uint_at checked_uint read_digits at_end str_eq unquote all_tokens tokens token_at
    span quoted is_name_char is_op_char is_alnum is_alpha is_digit is_space skip_spaces contains
precedence = refl

-- The token behind the list is NULL.
unclosed : computed_exp_parse (codes "(a") ≡ crash
unfolding computed_exp_parse parse_tokens parse_list accept next_is concat_at or_at and_at cond_at
    sum_at prod_at attach new_computed_exp close prim_of literal number_or_name starts_name
    string_to_uint uint_at checked_uint read_digits at_end str_eq unquote all_tokens tokens token_at
    span quoted is_name_char is_op_char is_alnum is_alpha is_digit is_space skip_spaces contains
unclosed = refl

abbrev env : Env
env = record {
  get_value = λ name. if str_eq name (codes "x") then some (codes "7") else none;
  now = pos 1000;
  date_string_to_time = λ s. none;
}

all_tokens-Lexes_example :
    (ts : List Bytes) × (all_tokens (codes "a + 1") ≡ some ts) × Lexes (codes "a + 1") ts
all_tokens-Lexes_example = all_tokens-Lexes (codes "a + 1")

parse_tokens-ne-out_of_fuel_example :
    parse_tokens (codes "(" ∷ codes "1" ∷ codes ")" ∷ []) ≢ out_of_fuel
parse_tokens-ne-out_of_fuel_example =
    parse_tokens-ne-out_of_fuel (codes "(" ∷ codes "1" ∷ codes ")" ∷ [])

abbrev sum_exp : Exp
sum_exp = calc plus (ident (codes "x")) (num 5)

sum_exp_uint : eval_uint env sum_exp ≡ some 12
unfolding eval_uint calc_result calc_uint string_to_uint str_eq uint_at checked_uint read_digits
    skip_spaces at_end is_digit is_space
sum_exp_uint = refl

eval_text-eval_uint_example :
    (s : Bytes) × (eval_text env sum_exp ≡ (true, some s)) × (string_to_uint (some s) ≡ some 12)
eval_text-eval_uint_example = eval_text-eval_uint env sum_exp (tt, omega arith) sum_exp_uint

abbrev cmp_exp : Exp
cmp_exp = cmp lt (num 3) (ident (codes "x"))

cmp_exp_bool : eval_bool env cmp_exp ≡ some true
unfolding eval_bool eval_uint cmp_result cmp_test string_to_uint str_eq uint_at checked_uint
    read_digits skip_spaces at_end is_digit is_space
cmp_exp_bool = refl

abbrev x_changed : ValueChanged
x_changed name = (str_eq name (codes "x"), false)

is_changed-mentions_example :
    (is_changed x_changed env sum_exp).changed ≡ some_of (λ n. (x_changed n).0) (mentions sum_exp)
unfolding is_changed both_changes parameter_changes str_eq
is_changed-mentions_example = (is_changed-mentions x_changed env sum_exp (tt, tt) refl).0
