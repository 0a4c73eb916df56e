-- ===== src/Core.antt =====
-- The domain contracts of crates/nubisync-core/src/lib.rs.
pub mod Error
pub mod Ids
pub mod Modes
pub mod Path
pub mod Root
pub mod Snapshot
pub mod Remote
