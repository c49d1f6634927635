-- ===== src/Deploy.antt =====
-- The deployment scripts of scripts/deploy.
pub mod EnvFile
pub mod EnvFields
pub mod PrepareEnv
pub mod Pipeline
pub mod Images
pub mod Manifests
