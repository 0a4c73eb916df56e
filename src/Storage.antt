-- ===== src/Storage.antt =====
-- The durable store of crates/nubisync-storage/src/lib.rs.
pub mod Failure
pub mod Tables
pub mod Subtree
pub mod Catalog
pub mod Window
pub mod Closing
pub mod Receipts
pub mod Directories
pub mod Snapshot
pub mod Intents
pub mod LocalEvent
pub mod Local
pub mod History
