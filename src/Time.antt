-- ===== src/Time.antt =====
-- src/time: the relation of camera ticks, the monotonic clock and the wall clock.
pub mod Arithmetic
pub mod Model
pub mod Division
pub mod Overflow
pub mod Points
pub mod Mapping
pub mod Stamp
pub mod RoundTrip
pub mod Exact
pub mod Consistent
mod Examples
