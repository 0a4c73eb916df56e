-- ===== src/Drive.antt =====
-- The parts of crates/nubisync-drive/src/api.rs that do no input or output.
pub mod Query
pub mod Number
pub mod Upload
pub mod Pages
