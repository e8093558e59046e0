-- ===== src/Kubernetes.antt =====
-- controlplane/kubernetes.py: targets and releases on existing clusters.
pub mod State
pub mod Finality
pub mod Releases
pub mod Events
pub mod Starting
pub mod Outcomes
pub mod Registering
pub mod Requests
pub mod Rows
pub mod Targets
pub mod Uniqueness
pub mod Tests
pub mod Validation
