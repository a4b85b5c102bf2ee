-- ===== src/Rpc.antt =====
-- dm_engine/src/DM_ENG_RPCInterface.c: the RPC methods of TR-069, between the lock of the data and its
-- release.
pub mod Values
pub mod Atomic
pub mod Applied
pub mod Read
pub mod Levels
pub mod Filtered
pub mod Objects
pub mod Attributes
pub mod Restore
pub mod Rollback
mod Tests
