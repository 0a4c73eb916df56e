-- ===== src/Sync.antt =====
-- The planners of crates/nubisync-sync/src.
pub mod Reconcile
pub mod Change
pub mod Projection
pub mod Failure
pub mod Hydration
pub mod Catalog
pub mod Local
pub mod Paths
pub mod Materialize
pub mod Converge
