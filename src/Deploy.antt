-- ===== src/Deploy.antt =====
-- cli/djangoops/deploy.py: staged deployment over SSH.
pub mod Targets
pub mod Commands
pub mod Flow
pub mod Stages
pub mod Destination
pub mod Tests
