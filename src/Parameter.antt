-- ===== src/Parameter.antt =====
-- dm_engine/src/DM_ENG_Parameter.c: the parameters of the data model, one at a time.
pub mod Struct
pub mod Name
pub mod Value
pub mod Load
pub mod Check
pub mod TypeText
pub mod Make
pub mod Step
mod Tests
