-- ===== src/Diagnostics.antt =====
-- controlplane/services.py: the life of a diagnostic operation.
pub mod Backend
pub mod State
pub mod Service
mod Rows
pub mod Starting
pub mod Final
pub mod Race
pub mod History
pub mod Outcomes
mod Tests
