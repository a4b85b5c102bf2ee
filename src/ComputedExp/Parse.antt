-- ===== src/ComputedExp/Parse.antt =====
-- dm_engine/src/DM_ENG_ComputedExp.c: the parser, a function for each level of precedence. The fuel
-- bounds the depth of the calls.
pub mod Termination
use tr069agent.Prelude.{
  ℕ, suc, zero, ◌+◌, ◌*◌, Bool, true, false, ◌&&◌, ◌||◌, Option, none, some, List, [], ◌∷◌, ◌==◌,
  if◌then◌else◌, Bytes, codes, str_eq, is_alpha, length,
}
use tr069agent.Common.Number.{string_to_uint}
use tr069agent.ComputedExp.Exp.{
  Exp, list, guard, cons, negation, sign, ident, quote, string, num, call, nil, SignOp, u_plus,
  u_minus, Op, concat_op, logic_op, cmp_op, calc_op, or, and, lt, le, gt, ge, eq, ne, plus, minus,
  times, div, new_computed_exp,
}
use tr069agent.ComputedExp.Level.{
  next_is, concat_at, or_at, and_at, cond_at, sum_at, prod_at, attach, Prim, open_paren, bang,
  sign_of, atom, name, other, prim_of,
}
use tr069agent.ComputedExp.Token.{all_tokens, unquote}

-- An expression with the tokens behind it; NULL; or the dereference of a NULL token.
pub data Parsed : Type 0 where
  ok : Exp × List Bytes → Parsed
  failed : Parsed
  crash : Parsed
  out_of_fuel : Parsed

infixl 5 ◌>>=◌
abbrev pub ◌>>=◌ : Parsed → (Exp × List Bytes → Parsed) → Parsed
ok p >>= f = f p
failed >>= f = failed
crash >>= f = crash
out_of_fuel >>= f = out_of_fuel

-- `strcmp (tok, ")")`, where the token may be NULL.
unfoldable pub close : Exp → List Bytes → Parsed
unfolding str_eq
close e [] = crash
close e (tok ∷ ts) = if str_eq tok (codes ")") then ok (e, ts) else failed

unfoldable mutual
  pub parse_list : ℕ → List Bytes → Parsed
  parse_list zero ts = out_of_fuel
  parse_list (suc n) ts = do
    (s, rest) ← parse_guard n ts
    elim (next_is (codes ",") rest) [
      | none ↦ ok (s, rest)
      | some rest' ↦ parse_list n rest' >>= λ p. ok (list s p.0, p.1)
    ]

  pub parse_guard : ℕ → List Bytes → Parsed
  parse_guard zero ts = out_of_fuel
  parse_guard (suc n) ts = do
    (g, rest) ← parse_cons n ts
    elim (next_is (codes "?") rest) [
      | none ↦ ok (g, rest)
      | some rest' ↦ parse_guard n rest' >>= λ p. ok (guard g p.0, p.1)
    ]

  pub parse_cons : ℕ → List Bytes → Parsed
  parse_cons zero ts = out_of_fuel
  parse_cons (suc n) ts = do
    (x, rest) ← parse_concat n none ts
    elim (next_is (codes ":") rest) [
      | none ↦ ok (x, rest)
      | some rest' ↦ parse_cons n rest' >>= λ p. ok (cons x p.0, p.1)
    ]

  pub parse_concat : ℕ → Option (Op × Exp) → List Bytes → Parsed
  parse_concat zero left ts = out_of_fuel
  parse_concat (suc n) left ts = do
    (x, rest) ← parse_or n none ts
    elim (concat_at rest) [
      | none ↦ ok (attach left x, rest)
      | some (op, rest') ↦ parse_concat n (some (op, attach left x)) rest'
    ]

  pub parse_or : ℕ → Option (Op × Exp) → List Bytes → Parsed
  parse_or zero left ts = out_of_fuel
  parse_or (suc n) left ts = do
    (x, rest) ← parse_and n none ts
    elim (or_at rest) [
      | none ↦ ok (attach left x, rest)
      | some (op, rest') ↦ parse_or n (some (op, attach left x)) rest'
    ]

  pub parse_and : ℕ → Option (Op × Exp) → List Bytes → Parsed
  parse_and zero left ts = out_of_fuel
  parse_and (suc n) left ts = do
    (x, rest) ← parse_cond n none ts
    elim (and_at rest) [
      | none ↦ ok (attach left x, rest)
      | some (op, rest') ↦ parse_and n (some (op, attach left x)) rest'
    ]

  pub parse_cond : ℕ → Option (Op × Exp) → List Bytes → Parsed
  parse_cond zero left ts = out_of_fuel
  parse_cond (suc n) left ts = do
    (x, rest) ← parse_sum n none ts
    elim (cond_at rest) [
      | none ↦ ok (attach left x, rest)
      | some (op, rest') ↦ parse_cond n (some (op, attach left x)) rest'
    ]

  pub parse_sum : ℕ → Option (Op × Exp) → List Bytes → Parsed
  parse_sum zero left ts = out_of_fuel
  parse_sum (suc n) left ts = do
    (x, rest) ← parse_prod n none ts
    elim (sum_at rest) [
      | none ↦ ok (attach left x, rest)
      | some (op, rest') ↦ parse_sum n (some (op, attach left x)) rest'
    ]

  pub parse_prod : ℕ → Option (Op × Exp) → List Bytes → Parsed
  parse_prod zero left ts = out_of_fuel
  parse_prod (suc n) left ts = do
    (x, rest) ← parse_prim n ts
    elim (prod_at rest) [
      | none ↦ ok (attach left x, rest)
      | some (op, rest') ↦ parse_prod n (some (op, attach left x)) rest'
    ]

  pub parse_prim : ℕ → List Bytes → Parsed
  parse_prim zero ts = out_of_fuel
  parse_prim (suc n) [] = ok (nil, [])
  parse_prim (suc n) (tok ∷ ts) = elim (prim_of tok) [
    | open_paren ↦ parse_list n ts >>= λ p. close p.0 p.1
    | bang ↦ parse_prim n ts >>= λ p. ok (negation p.0, p.1)
    | sign_of op ↦ parse_prim n ts >>= λ p. ok (sign op p.0, p.1)
    | atom e ↦ ok (e, ts)
    | name ↦ elim (next_is (codes "(") ts) [
      | none ↦ ok (ident tok, ts)
      | some args ↦ parse_list n args >>= λ p. close (call tok p.0) p.1
    ]
    | other ↦ ok (nil, tok ∷ ts)
  ]

-- An expression is accepted if no token is left behind it.
unfoldable pub accept : Parsed → Parsed
accept (ok (e, [])) = ok (e, [])
accept (ok (e, tok ∷ ts)) = failed
accept p = p

unfoldable pub parse_tokens : List Bytes → Parsed
parse_tokens ts = accept (parse_list (10 * length ts + 10) ts)

unfoldable pub computed_exp_parse : Bytes → Parsed
computed_exp_parse s = elim (all_tokens s) [ none ↦ out_of_fuel | some ts ↦ parse_tokens ts ]
