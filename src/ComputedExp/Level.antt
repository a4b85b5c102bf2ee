-- ===== src/ComputedExp/Level.antt =====
-- dm_engine/src/DM_ENG_ComputedExp.c: what the parser asks of a token: the operators of each level of
-- precedence, and the starts of a primary expression.
use tr069agent.Prelude.{
  Bool, false, ◌||◌, Option, none, some, List, [], ◌∷◌, ◌==◌, if◌then◌else◌, Bytes, codes, str_eq,
  is_alpha,
}
use tr069agent.Common.Number.{string_to_uint}
use tr069agent.ComputedExp.Exp.{
  Exp, quote, string, num, SignOp, u_plus, u_minus, Op, concat_op, logic_op, cmp_op, calc_op, or,
  and, lt, le, gt, ge, eq, ne, plus, minus, times, div, new_computed_exp,
}
use tr069agent.ComputedExp.Token.{unquote}

-- `(tok != NULL) && (strcmp (tok, s) == 0)`, with the tokens behind.
unfoldable pub next_is : Bytes → List Bytes → Option (List Bytes)
unfolding str_eq
next_is s [] = none
next_is s (tok ∷ ts) = if str_eq tok s then some ts else none

-- The operator of a level at the head of the tokens.
unfoldable pub concat_at : List Bytes → Option (Op × List Bytes)
unfolding str_eq
concat_at [] = none
concat_at (tok ∷ ts) = if str_eq tok (codes "++") then some (concat_op, ts) else none

unfoldable pub or_at : List Bytes → Option (Op × List Bytes)
unfolding str_eq
or_at [] = none
or_at (tok ∷ ts) = if str_eq tok (codes "|") then some (logic_op or, ts) else none

unfoldable pub and_at : List Bytes → Option (Op × List Bytes)
unfolding str_eq
and_at [] = none
and_at (tok ∷ ts) = if str_eq tok (codes "&") then some (logic_op and, ts) else none

unfoldable pub cond_at : List Bytes → Option (Op × List Bytes)
unfolding str_eq
cond_at [] = none
cond_at (tok ∷ ts) =
    if str_eq tok (codes "<")
    then some (cmp_op lt, ts)
    else if str_eq tok (codes "<=")
    then some (cmp_op le, ts)
    else if str_eq tok (codes ">")
    then some (cmp_op gt, ts)
    else if str_eq tok (codes ">=")
    then some (cmp_op ge, ts)
    else if str_eq tok (codes "==")
    then some (cmp_op eq, ts)
    else if str_eq tok (codes "!=")
    then some (cmp_op ne, ts)
    else none

unfoldable pub sum_at : List Bytes → Option (Op × List Bytes)
unfolding str_eq
sum_at [] = none
sum_at (tok ∷ ts) =
    if str_eq tok (codes "+")
    then some (calc_op plus, ts)
    else if str_eq tok (codes "-")
    then some (calc_op minus, ts)
    else none

unfoldable pub prod_at : List Bytes → Option (Op × List Bytes)
unfolding str_eq
prod_at [] = none
prod_at (tok ∷ ts) =
    if str_eq tok (codes "*")
    then some (calc_op times, ts)
    else if str_eq tok (codes "/")
    then some (calc_op div, ts)
    else none

-- The left operand with its operator, if there is one, takes the operand just read.
unfoldable pub attach : Option (Op × Exp) → Exp → Exp
unfolding new_computed_exp
attach none x = x
attach (some (op, l)) x = new_computed_exp op l x

-- What a token of `_parsePrim` is.
pub data Prim : Type 0 where
  open_paren bang : Prim
  sign_of : SignOp → Prim
  atom : Exp → Prim
  name : Prim
  other : Prim

unfoldable pub starts_name : Bytes → Bool
starts_name [] = false
starts_name (c ∷ cs) = is_alpha c || c == b'.' || c == b'_'

unfoldable pub number_or_name : Bytes → Prim
unfolding starts_name
number_or_name tok = elim (string_to_uint (some tok)) [
  | some i ↦ atom (num i)
  | none ↦ if starts_name tok then name else other
]

-- A quoted text, by its delimiter; then a number, a name, or none of these.
unfoldable pub literal : Bytes → Prim
unfolding number_or_name
literal [] = other
literal (c ∷ cs) =
    if c == b'"'
    then atom (string (unquote c cs))
    else if c == b'\''
    then atom (quote (unquote c cs))
    else number_or_name (c ∷ cs)

unfoldable pub prim_of : Bytes → Prim
unfolding str_eq literal
prim_of tok =
    if str_eq tok (codes "(")
    then open_paren
    else if str_eq tok (codes "!")
    then bang
    else if str_eq tok (codes "+")
    then sign_of u_plus
    else if str_eq tok (codes "-")
    then sign_of u_minus
    else literal tok
