-- ===== src/Sync/Converge.antt =====
-- `plan_receive_only_convergence` of crates/nubisync-sync/src/convergence.rs: the actions that bring
-- the local tree to the remote catalog, given the receipts of what the program wrote itself.
pub mod Receipts
pub mod Drafts
pub mod Decide
pub mod Index
pub mod Reads
pub mod Plan
pub mod Loops
pub mod Justified
pub mod Parts
pub mod Reasons
pub mod Reasoned
pub mod Sound
pub mod Bounds
pub mod Order
pub mod Idle
pub mod Kept
pub mod Carried
pub mod Removed
pub mod Covered
pub mod Converged
