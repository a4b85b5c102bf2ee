-- ===== src/ComputedExp/Exp.antt =====
-- dm_engine/inc/DM_ENG_ComputedExp.h: expressions. The struct of an operator and two pointers is a
-- data type with the operators grouped; a pointer that the parser never leaves NULL is an `Exp`.
use tr069agent.Prelude.{ℕ, Bytes}

pub data LogicOp : Type 0 where
  or and : LogicOp

pub data CmpOp : Type 0 where
  lt le gt ge eq ne : CmpOp

pub data CalcOp : Type 0 where
  plus minus times div : CalcOp

pub data SignOp : Type 0 where
  u_plus u_minus : SignOp

pub data Exp : Type 0 where
  list guard cons concat : Exp → Exp → Exp
  logic : LogicOp → Exp → Exp → Exp
  cmp : CmpOp → Exp → Exp → Exp
  calc : CalcOp → Exp → Exp → Exp
  sign : SignOp → Exp → Exp
  negation : Exp → Exp
  ident quote string : Bytes → Exp
  num : ℕ → Exp
  call : Bytes → Exp → Exp
  nil : Exp

-- The operators that associate to the left.
pub data Op : Type 0 where
  concat_op : Op
  logic_op : LogicOp → Op
  cmp_op : CmpOp → Op
  calc_op : CalcOp → Op

-- `DM_ENG_newComputedExp` on such an operator.
unfoldable pub new_computed_exp : Op → Exp → Exp → Exp
new_computed_exp concat_op l r = concat l r
new_computed_exp (logic_op op) l r = logic op l r
new_computed_exp (cmp_op op) l r = cmp op l r
new_computed_exp (calc_op op) l r = calc op l r
