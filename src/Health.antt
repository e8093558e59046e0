-- ===== src/Health.antt =====
-- cli/djangoops/health.py: the report of a health check over SSH.
pub mod Report
pub mod Reading
pub mod Tests
