-- ===== src/Gateway.antt =====
-- controlplane/gateway.py: the gateway that agents connect to.
pub mod State
pub mod Jobs
pub mod Sessions
pub mod Steps
pub mod Cases
pub mod Admission
pub mod Calls
pub mod Delivery
pub mod Presence
pub mod Lifecycle
pub mod Invariant
mod Tests
