-- ===== src/Config.antt =====
-- cli/djangoops/config.py: the project configuration.
pub mod Validators
pub mod Schema
pub mod Accepted
pub mod Validity
pub mod Tests
