-- ===== src/Compose.antt =====
-- cli/djangoops/compose.py: the generated Compose file.
pub mod Services
pub mod Render
pub mod Complete
mod Tests
