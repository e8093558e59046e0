-- ===== src/Gateway/Invariant.antt =====
-- What every event keeps true of the gateway: `Changes` breaks an event into primitive changes, and
-- the other children prove one part of the invariant each.
pub mod Queues
pub mod Changes
pub mod Capacity
pub mod Cache
pub mod Reachable
