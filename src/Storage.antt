-- ===== src/Storage.antt =====
-- src/storage: what is kept of events on disk, and what is deleted.
pub mod Paths
pub mod Policy
pub mod Admission
pub mod Maintenance
pub mod Run
pub mod Watermark
mod Examples
