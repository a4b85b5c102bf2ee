-- ===== src/ComputedExp/Eval/Range.antt =====
-- Numbers of the evaluation have 32 bits.
use native.Mathlib.Nat.{div-le_self}
use tr069agent.Prelude.{
  ℕ, ◌+◌, ◌%◌, ◌<◌, ◌≡◌, subst, Bool, true, false, Option, none, some, [], ◌∷◌, arith, leb, ◌==◌,
  if◌then◌else◌, Bytes, is_digit, ◌/◌, str_eq, Bool-cases, inl, inr,
}
use tr069agent.Prelude.Int.{ℤ}
use tr069agent.Common.Number.{string_to_uint, uint_at, checked_uint, read_digits, skip_spaces}
use tr069agent.ComputedExp.Exp.{
  Exp, list, guard, cons, concat, logic, cmp, calc, sign, negation, ident, quote, num, call, nil,
  CalcOp, SignOp, plus, minus, times, div, u_plus, u_minus,
}
use tr069agent.ComputedExp.Value.{
  Env, uint_mod, class_fct, diff_time_fct, calc_uint, calc_result, sign_uint, sign_result,
  diff_time,
}
use tr069agent.ComputedExp.Eval.{eval_uint, eval_class}

-- Every number of the expression is an `unsigned int`, as the parser makes them.
abbrev pub IsSized : Exp → Type 0
IsSized (num i) = i < uint_mod
IsSized (list l r) = IsSized l × IsSized r
IsSized (guard l r) = IsSized l × IsSized r
IsSized (cons l r) = IsSized l × IsSized r
IsSized (concat l r) = IsSized l × IsSized r
IsSized (logic op l r) = IsSized l × IsSized r
IsSized (cmp op l r) = IsSized l × IsSized r
IsSized (calc op l r) = IsSized l × IsSized r
IsSized (sign op e) = IsSized e
IsSized (negation e) = IsSized e
IsSized (call f e) = IsSized e
IsSized _ = Unit {0}

-- A number, if there is one, has 32 bits.
abbrev pub IsWord : Option ℕ → Type 0
IsWord none = Unit {0}
IsWord (some v) = v < uint_mod

If-IsWord : (b : Bool) (x y : Option ℕ) → IsWord x → IsWord y → IsWord (if b then x else y)
If-IsWord true x y h k = h
If-IsWord false x y h k = k

If-lt : (b : Bool) (x y : ℕ) → x < uint_mod → y < uint_mod → (if b then x else y) < uint_mod
If-lt true x y h k = h
If-lt false x y h k = k

pub Class-IsWord :
    (o : Option ℕ) (k : ℕ → Option ℕ)
    → ((v : ℕ) → IsWord (k v))
    → IsWord (elim o [ none ↦ none | some v ↦ k v ])
Class-IsWord none k h = tt
Class-IsWord (some v) k h = h v

checked_uint-IsWord : (p : ℕ × Bytes) → IsWord (checked_uint p)
unfolding checked_uint
checked_uint-IsWord (v, s) = ground arith

uint_at-IsWord : (s : Bytes) → IsWord (uint_at s)
unfolding uint_at
uint_at-IsWord [] = tt
uint_at-IsWord (c ∷ cs) =
    If-IsWord (is_digit c) _ _ (checked_uint-IsWord (read_digits 0 (c ∷ cs))) tt

string_to_uint-IsWord : (s : Option Bytes) → IsWord (string_to_uint s)
unfolding string_to_uint
string_to_uint-IsWord none = tt
string_to_uint-IsWord (some []) = tt
string_to_uint-IsWord (some (c ∷ cs)) = uint_at-IsWord (skip_spaces (c ∷ cs))

calc_result-IsWord :
    (op : CalcOp) (l r : Option ℕ) → IsWord l → IsWord r → IsWord (calc_result op l r)
unfolding calc_result calc_uint
calc_result-IsWord plus (some l) (some r) h k = omega arith
calc_result-IsWord minus (some l) (some r) h k = omega arith
calc_result-IsWord times (some l) (some r) h k = omega arith
calc_result-IsWord div (some l) (some r) h k =
    If-IsWord (r == 0) none (some (l / r)) tt (omega (arith, div-le_self l r))
calc_result-IsWord op _ _ h k = tt

sign_result-IsWord : (op : SignOp) (v : Option ℕ) → IsWord v → IsWord (sign_result op v)
unfolding sign_result sign_uint
sign_result-IsWord op none h = tt
sign_result-IsWord u_plus (some v) h = h
sign_result-IsWord u_minus (some v) h = omega arith

pub diff_time-IsWord : (a b : Option ℤ) → IsWord (diff_time a b)
unfolding diff_time
diff_time-IsWord (some a) (some b) = ground arith
diff_time-IsWord _ _ = tt

class_step-IsWord :
    (env : Env) (val c : ℕ) (r : Exp) (borne : Option ℕ)
    → c < uint_mod
    → ((c + 1) % uint_mod < uint_mod
        → IsWord (eval_class env val ((c + 1) % uint_mod) r (eval_uint env r)))
    → IsWord (elim borne [
      | none ↦ none
      | some b ↦ elim (leb val b) [
        | true ↦ some c
        | false ↦ eval_class env val ((c + 1) % uint_mod) r (eval_uint env r)
      ]
    ])
class_step-IsWord env val c r none h go = tt
class_step-IsWord env val c r (some b) h go = elim (Bool-cases (leb val b)) [
  | inl y ↦ rw y h
  | inr n ↦ rw n (go (omega arith))
]

-- The count of `_evalClass` starts with 32 bits and wraps around.
mutual
  unfolding eval_class eval_uint

  pub eval_class-IsWord :
      (env : Env) (val c : ℕ) (e : Exp) (own : Option ℕ)
      → c < uint_mod
      → IsWord (eval_class env val c e own)
  eval_class-IsWord env val c (cons l r) own h =
      class_step-IsWord env val c r _ h
        λ k. eval_class-IsWord env val ((c + 1) % uint_mod) r (eval_uint env r) k
  eval_class-IsWord env val c nil own h = h
  eval_class-IsWord env val c e none h = tt
  eval_class-IsWord env val c e (some borne) h =
      If-lt (leb val borne) c ((c + 1) % uint_mod) h (omega arith)

  pub eval_uint-IsWord : (env : Env) (e : Exp) → IsSized e → IsWord (eval_uint env e)
  eval_uint-IsWord env (calc op l r) h =
      calc_result-IsWord op _ _ (eval_uint-IsWord env l h.0) (eval_uint-IsWord env r h.1)
  eval_uint-IsWord env (sign op e) h = sign_result-IsWord op _ (eval_uint-IsWord env e h)
  eval_uint-IsWord env (ident s) h = string_to_uint-IsWord _
  eval_uint-IsWord env (quote s) h = string_to_uint-IsWord _
  eval_uint-IsWord env (num i) h = h
  eval_uint-IsWord env (call f (list a b)) h =
      If-IsWord (str_eq f class_fct) _ _
        (Class-IsWord (eval_uint env a) _
          λ v. eval_class-IsWord env v 0 b (eval_uint env b) (omega arith))
        (If-IsWord (str_eq f diff_time_fct) _ _ (diff_time-IsWord _ _) (string_to_uint-IsWord _))
  eval_uint-IsWord env (call f a) h =
      If-IsWord (str_eq f diff_time_fct) _ _ (diff_time-IsWord _ _) (string_to_uint-IsWord _)
  eval_uint-IsWord env _ h = tt

-- A number that the evaluation of an expression gives is an `unsigned int`, if its literals are.
pub eval_uint-lt :
    (env : Env) (e : Exp) {v : ℕ} → IsSized e → eval_uint env e ≡ some v → v < uint_mod
eval_uint-lt env e h k = subst IsWord k (eval_uint-IsWord env e h)
