-- ===== src/Telemetry.antt =====
-- controlplane/telemetry.py: the counters, the buffer of recent events and the queue of exports.
pub mod Counters
pub mod State
pub mod Steps
pub mod Bounds
pub mod Totals
pub mod Tests
