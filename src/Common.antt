-- ===== src/Common.antt =====
-- dm_engine/src/DM_ENG_Common.c: the all-purpose functions of the engine.
pub mod Number
pub mod CommaList
pub mod Buffer
pub mod Escape
mod Tests
