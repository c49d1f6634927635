-- ===== src/Config.antt =====
-- src/infrastructure/config, src/infrastructure/database and src/infrastructure/runtime.py.
pub mod Urls
pub mod Settings
pub mod Readiness
pub mod Runtime
