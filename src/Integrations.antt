-- ===== src/Integrations.antt =====
-- cli/djangoops/integrations.py and controlplane/ecosystem.py: the integrations of a project.
pub mod Contract
pub mod Parser
pub mod Evaluation
pub mod Settings
pub mod Parsing
pub mod Lengths
pub mod Ready
pub mod Projects
mod Tests
