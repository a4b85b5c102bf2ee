-- ===== src/ComputedExp.antt =====
-- dm_engine/src/DM_ENG_ComputedExp.c: the expressions of COMPUTED parameters, their tokens, the
-- parser, the evaluation, and the test whether a value changed.
pub mod Exp
pub mod Token
pub mod Level
pub mod Parse
pub mod Value
pub mod Eval
pub mod Changed
mod Tests
