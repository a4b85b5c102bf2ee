-- ===== src/Store.antt =====
-- dm_target_implementation/PCLINUX/dm_target_dataManagement/src/DM_DAT1_ParameterData.c: the data that
-- the engine keeps in files.
pub mod Struct
pub mod Schedule
pub mod Tree
pub mod Line
pub mod ControlLine
pub mod EventLine
pub mod Events
pub mod Transfers
pub mod Keys
mod Tests
