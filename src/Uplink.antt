-- ===== src/Uplink.antt =====
-- src/uplink: the upload of stored events.
pub mod Retry
pub mod Scheduler
mod Examples
