-- ===== src/Config/Validity.antt =====
-- A configuration that `from_mapping` of cli/djangoops/config.py returns has passed every validator.
