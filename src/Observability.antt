-- ===== src/Observability.antt =====
-- controlplane/observability.py: what saved rows report to the telemetry, and the summaries.
pub mod Seen
pub mod Diagnostics
pub mod Releases
pub mod Saves
pub mod Window
pub mod Noticed
pub mod Summary
pub mod Members
mod Tests
