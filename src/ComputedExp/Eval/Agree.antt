-- ===== src/ComputedExp/Eval/Agree.antt =====
-- The evaluation as a text agrees with the evaluations as a number and as a bool.
use tr069agent.Prelude.{
  ℕ, ◌≡◌, refl, subst, Bool, true, false, Option, none, some, ◌++◌, arith, if◌then◌else◌, Bytes,
  is_space, codes, str_eq,
}
use tr069agent.Common.Number.{
  string_to_uint, string_to_bool, uint_to_string, true_string, false_string,
}
use tr069agent.Common.Number.RoundTrip.{string_to_uint-uint_to_string}
use tr069agent.ComputedExp.Exp.{
  Exp, list, concat, logic, cmp, calc, sign, negation, ident, quote, num, call, CalcOp, div,
}
use tr069agent.ComputedExp.Value.{
  Env, Text, class_fct, diff_time_fct, calc_uint, calc_result, text_of_value, text_of_bool,
  text_of_uint, text_of_calc, calc_text, concat_text, join_texts,
}
use tr069agent.ComputedExp.Eval.{eval_uint, eval_bool, eval_text}
use tr069agent.ComputedExp.Eval.Range.{
  IsSized, IsWord, eval_uint-IsWord, eval_class-IsWord, Class-IsWord, diff_time-IsWord,
}

-- A text whose number is `v`.
abbrev pub Reads : Text → ℕ → Type 0
Reads t v = (s : Bytes) × (t ≡ (true, some s)) × (string_to_uint (some s) ≡ some v)

abbrev Agrees : Text → Option ℕ → Type 0
Agrees t none = Unit {0}
Agrees t (some v) = Reads t v

text_of_uint-Agrees : (o : Option ℕ) → IsWord o → Agrees (text_of_uint o) o
unfolding text_of_uint
text_of_uint-Agrees none h = tt
text_of_uint-Agrees (some v) h = (uint_to_string v, refl, string_to_uint-uint_to_string v h)

Agrees-some : (s : Bytes) (o : Option ℕ) → string_to_uint (some s) ≡ o → Agrees (true, some s) o
Agrees-some s none e = tt
Agrees-some s (some v) e = (s, refl, e)

calc_step-Agrees :
    (o : Option ℕ)
    → IsWord o
    → Agrees
        (elim o [
          | none ↦ (false, some (uint_to_string 0))
          | some v ↦ (true, some (uint_to_string v))
        ])
        o
calc_step-Agrees none h = tt
calc_step-Agrees (some v) h = (uint_to_string v, refl, string_to_uint-uint_to_string v h)

value-Agrees : (o : Option Bytes) → Agrees (text_of_value o) (string_to_uint o)
value-Agrees none = unfold string_to_uint in tt
value-Agrees (some s) = unfold text_of_value in Agrees-some s _ refl

calc_text-Agrees :
    (op : CalcOp) (l r : Option ℕ)
    → IsWord (calc_result op l r)
    → Agrees (calc_text op l r) (calc_result op l r)
unfolding calc_text calc_result text_of_calc
calc_text-Agrees op (some l) (some r) h = calc_step-Agrees (calc_uint op l r) h
calc_text-Agrees op _ _ h = tt

If-Agrees :
    (b : Bool) (t u : Text) (o p : Option ℕ)
    → Agrees t o
    → Agrees u p
    → Agrees (if b then t else u) (if b then o else p)
If-Agrees true t u o p h k = h
If-Agrees false t u o p h k = k

eval_text-Agrees : (env : Env) (e : Exp) → IsSized e → Agrees (eval_text env e) (eval_uint env e)
unfolding eval_text eval_uint
eval_text-Agrees env (calc op l r) h =
    calc_text-Agrees op _ _ (eval_uint-IsWord env (calc op l r) h)
eval_text-Agrees env (sign op e) h = text_of_uint-Agrees _ (eval_uint-IsWord env (sign op e) h)
eval_text-Agrees env (ident s) h = value-Agrees _
eval_text-Agrees env (quote s) h = value-Agrees _
eval_text-Agrees env (num i) h = text_of_uint-Agrees (some i) h
eval_text-Agrees env (call f (list a b)) h =
    If-Agrees (str_eq f class_fct) _ _ _ _
      (text_of_uint-Agrees _ (
        Class-IsWord (eval_uint env a) _
          λ v. eval_class-IsWord env v 0 b (eval_uint env b) (omega arith)))
      (If-Agrees (str_eq f diff_time_fct) _ _ _ _ (text_of_uint-Agrees _ (diff_time-IsWord _ _))
        (value-Agrees _))
eval_text-Agrees env (call f a) h =
    If-Agrees (str_eq f diff_time_fct) _ _ _ _ (text_of_uint-Agrees _ (diff_time-IsWord _ _))
      (value-Agrees _)
eval_text-Agrees env _ h = tt

-- Where an expression whose literals are of 32 bits has a number, its evaluation as a text succeeds,
-- and the text reads as that number.
pub eval_text-eval_uint :
    (env : Env) (e : Exp) {v : ℕ}
    → IsSized e
    → eval_uint env e ≡ some v
    → (s : Bytes) × (eval_text env e ≡ (true, some s)) × (string_to_uint (some s) ≡ some v)
eval_text-eval_uint env e h k = subst (Agrees (eval_text env e)) k (eval_text-Agrees env e h)

-- The functions that the evaluation as a text computes, and the one as a bool takes for parameters.
abbrev pub IsPlainCall : Exp → Type 0
IsPlainCall (call f a) = (str_eq f class_fct ≡ false) × (str_eq f diff_time_fct ≡ false)
IsPlainCall _ = Unit {0}

abbrev BoolAgrees : Text → Option Bool → Type 0
BoolAgrees t none = Unit {0}
BoolAgrees t (some b) = (s : Bytes) × (t ≡ (true, some s)) × (string_to_bool (some s) ≡ some b)

text_of_bool-BoolAgrees : (o : Option Bool) → BoolAgrees (text_of_bool o) o
text_of_bool-BoolAgrees none = tt
text_of_bool-BoolAgrees (some true) =
    unfold text_of_bool string_to_bool is_space in (true_string, refl, refl)
text_of_bool-BoolAgrees (some false) =
    unfold text_of_bool string_to_bool is_space in (false_string, refl, refl)

BoolAgrees-some :
    (s : Bytes) (o : Option Bool) → string_to_bool (some s) ≡ o → BoolAgrees (true, some s) o
BoolAgrees-some s none e = tt
BoolAgrees-some s (some v) e = (s, refl, e)

value-BoolAgrees : (o : Option Bytes) → BoolAgrees (text_of_value o) (string_to_bool o)
value-BoolAgrees none = unfold string_to_bool in tt
value-BoolAgrees (some s) = unfold text_of_value in BoolAgrees-some s _ refl

eval_text-BoolAgrees :
    (env : Env) (e : Exp) → IsPlainCall e → BoolAgrees (eval_text env e) (eval_bool env e)
unfolding eval_text eval_bool
eval_text-BoolAgrees env (logic op l r) h = text_of_bool-BoolAgrees _
eval_text-BoolAgrees env (cmp op l r) h = text_of_bool-BoolAgrees _
eval_text-BoolAgrees env (negation e) h = text_of_bool-BoolAgrees _
eval_text-BoolAgrees env (ident s) h = value-BoolAgrees _
eval_text-BoolAgrees env (call f (list a b)) h = rw (h.0, h.1) (value-BoolAgrees _)
eval_text-BoolAgrees env (call f a) h = rw (h.1) (value-BoolAgrees _)
eval_text-BoolAgrees env _ h = tt

-- Where an expression other than a call of `Class` or `DiffTime` has a bool, its evaluation as a
-- text succeeds, and the text reads as that bool.
pub eval_text-eval_bool :
    (env : Env) (e : Exp) {b : Bool}
    → IsPlainCall e
    → eval_bool env e ≡ some b
    → (s : Bytes) × (eval_text env e ≡ (true, some s)) × (string_to_bool (some s) ≡ some b)
eval_text-eval_bool env e h k =
    subst (BoolAgrees (eval_text env e)) k (eval_text-BoolAgrees env e h)

-- A text followed by a division by zero evaluates, with success, to the text and a 0, although the
-- division alone fails.
pub concat_div_by_zero :
    (env : Env) (e l r : Exp) {s : Bytes} {a : ℕ}
    → eval_text env e ≡ (true, some s)
    → eval_uint env l ≡ some a
    → eval_uint env r ≡ some 0
    → (eval_uint env (calc div l r) ≡ none)
      × ((eval_text env (calc div l r)).0 ≡ false)
      × (eval_text env (concat e (calc div l r)) ≡ (true, some (s ++ codes "0")))
unfolding eval_text eval_uint calc_result calc_text concat_text calc_uint text_of_calc join_texts
    uint_to_string
concat_div_by_zero env e l r h k z = rw (h, k, z) (refl, refl, refl)
