-- ===== src/ComputedExp/Value.antt =====
-- dm_engine/src/DM_ENG_ComputedExp.c: the parts of the evaluation that do not call it again. An
-- `unsigned int` has 32 bits. A `bool` result with an `OUT` number or `bool` is an `Option`; that of
-- `_eval` is a pair, since callers read the text also where the result is false.
use Prim.Native.Nat.{compare, Ordering}
use tr069agent.Prelude.{
  ℕ, ◌+◌, ◌-◌, ◌*◌, ◌/◌, ◌%◌, Bool, true, false, not, ◌&&◌, ◌||◌, Option, none, some, [], ◌∷◌, ◌++◌,
  ◌==◌, if◌then◌else◌, Bytes, codes,
}
use tr069agent.Prelude.Int.{ℤ, pos, pos_part, neg_part, leb_ℤ}
use tr069agent.Common.Number.{uint_to_string, true_string, false_string}
use tr069agent.ComputedExp.Exp.{
  Exp, ident, nil, LogicOp, or, and, CmpOp, lt, le, gt, ge, eq, ne, CalcOp, plus, minus, times, div,
  SignOp, u_plus, u_minus,
}

-- What the evaluation asks of its surroundings: the callback, `time (NULL)` of the C library, and
-- `DM_ENG_dateStringToTime`, which rests on sscanf, mktime and gmtime.
pub record Env : Type 0 where
  pub get_value : Bytes → Option Bytes
  pub now : ℤ
  pub date_string_to_time : Bytes → Option ℤ

abbrev pub uint_mod : ℕ
uint_mod = 0x1_0000_0000

-- The result of `_eval` and the text at its `OUT` pointer.
abbrev pub Text : Type 0
Text = Bool × Option Bytes

abbrev pub class_fct : Bytes
class_fct = codes "Class"

abbrev pub diff_time_fct : Bytes
diff_time_fct = codes "DiffTime"

unfoldable pub is_nil : Exp → Bool
is_nil nil = true
is_nil _ = false

-- The name `arg!fct` where the argument is a name.
unfoldable pub attribute_name : Exp → Bytes → Option Bytes
attribute_name (ident s) fct = some (s ++ b'!' ∷ fct)
attribute_name _ fct = none

unfoldable pub attribute : Env → Exp → Bytes → Option Bytes
unfolding attribute_name
attribute env arg fct = elim (attribute_name arg fct) [
  | none ↦ none
  | some name ↦ env.get_value name
]

-- Arithmetic modulo 2 ^ 32; no result for a division by zero.
unfoldable pub calc_uint : CalcOp → ℕ → ℕ → Option ℕ
calc_uint plus l r = some ((l + r) % uint_mod)
calc_uint minus l r = some ((l + uint_mod - r) % uint_mod)
calc_uint times l r = some (l * r % uint_mod)
calc_uint div l r = if r == 0 then none else some (l / r)

unfoldable pub calc_result : CalcOp → Option ℕ → Option ℕ → Option ℕ
calc_result op (some l) (some r) = calc_uint op l r
calc_result op _ _ = none

unfoldable pub sign_uint : SignOp → ℕ → ℕ
sign_uint u_plus v = v
sign_uint u_minus v = (uint_mod - v) % uint_mod

unfoldable pub sign_result : SignOp → Option ℕ → Option ℕ
sign_result op none = none
sign_result op (some v) = some (sign_uint op v)

-- The date at a text; a NULL text with a true result leaves 0.
unfoldable pub date_of : Env → Text → Option ℤ
date_of env (false, s) = none
date_of env (true, none) = some (pos 0)
date_of env (true, some s) = env.date_string_to_time s

-- `_evalDiffTime` behind its arguments: the later date, then the earlier one.
unfoldable pub diff_time : Option ℤ → Option ℤ → Option ℕ
diff_time (some t2) (some t1) =
    if leb_ℤ t1 t2
    then some ((pos_part t2 + neg_part t1 - (pos_part t1 + neg_part t2)) % uint_mod)
    else none
diff_time _ _ = none

unfoldable pub logic_bool : LogicOp → Bool → Bool → Bool
logic_bool or l r = l || r
logic_bool and l r = l && r

unfoldable pub logic_result : LogicOp → Option Bool → Option Bool → Option Bool
logic_result op (some l) (some r) = some (logic_bool op l r)
logic_result op _ _ = none

unfoldable pub not_result : Option Bool → Option Bool
not_result none = none
not_result (some b) = some (not b)

-- The test of an operator on the outcome of a comparison.
unfoldable pub cmp_test : CmpOp → Ordering → Bool
cmp_test lt o = elim o [ Ordering.lt ↦ true | _ ↦ false ]
cmp_test le o = elim o [ Ordering.gt ↦ false | _ ↦ true ]
cmp_test gt o = elim o [ Ordering.gt ↦ true | _ ↦ false ]
cmp_test ge o = elim o [ Ordering.lt ↦ false | _ ↦ true ]
cmp_test eq o = elim o [ Ordering.eq ↦ true | _ ↦ false ]
cmp_test ne o = elim o [ Ordering.eq ↦ false | _ ↦ true ]

unfoldable pub strcmp : Bytes → Bytes → Ordering
strcmp [] [] = Ordering.eq
strcmp [] (d ∷ ds) = Ordering.lt
strcmp (c ∷ cs) [] = Ordering.gt
strcmp (c ∷ cs) (d ∷ ds) =
    let rest = strcmp cs ds in
    elim (compare c d) [
      | Ordering.lt ↦ Ordering.lt
      | Ordering.gt ↦ Ordering.gt
      | Ordering.eq ↦ rest
    ]

unfoldable pub cmp_text : CmpOp → Option Bytes → Option Bytes → Option Bool
cmp_text op (some l) (some r) = some (cmp_test op (strcmp l r))
cmp_text op _ _ = none

-- Numbers are compared where both sides have one; otherwise the texts at the `OUT` pointers are,
-- whatever the results of `_eval` were.
unfoldable pub cmp_result : CmpOp → Option ℕ → Option ℕ → Text → Text → Option Bool
cmp_result op (some l) (some r) tl tr = some (cmp_test op (compare l r))
cmp_result op _ _ tl tr = cmp_text op tl.1 tr.1

unfoldable pub text_of_value : Option Bytes → Text
text_of_value none = (false, none)
text_of_value (some s) = (true, some s)

unfoldable pub text_of_bool : Option Bool → Text
text_of_bool none = (false, none)
text_of_bool (some b) = (true, some (if b then true_string else false_string))

unfoldable pub text_of_uint : Option ℕ → Text
text_of_uint none = (false, none)
text_of_uint (some v) = (true, some (uint_to_string v))

-- A division by zero has a false result, and leaves the text of 0.
unfoldable pub text_of_calc : CalcOp → ℕ → ℕ → Text
text_of_calc op l r = elim (calc_uint op l r) [
  | none ↦ (false, some (uint_to_string 0))
  | some v ↦ (true, some (uint_to_string v))
]

unfoldable pub calc_text : CalcOp → Option ℕ → Option ℕ → Text
calc_text op (some l) (some r) = text_of_calc op l r
calc_text op _ _ = (false, none)

unfoldable pub join_texts : Bytes → Option Bytes → Option Bytes → Text
join_texts sep (some l) (some r) = (true, some (l ++ (sep ++ r)))
join_texts sep _ _ = (false, none)

-- The right text is read only if the left evaluation succeeded; its own result is not read.
unfoldable pub concat_text : Bytes → Text → Text → Text
concat_text sep (true, l) (_, r) = join_texts sep l r
concat_text sep (false, l) _ = join_texts sep l none

unfoldable pub guard_text : Option Bool → Text → Text
guard_text (some true) t = t
guard_text _ t = (false, none)
