-- ===== src/Jitter.antt =====
-- JitterBuffer of src/jitter.rs. An `Instant` is a count of nanoseconds; `f64` is a parameter.
pub mod Slots
pub mod State
pub mod Arrival
pub mod Playout
pub mod Invariant
pub mod Delay
pub mod Run
pub mod Loss
mod Tests
pub mod Lateness
pub mod Rollover
