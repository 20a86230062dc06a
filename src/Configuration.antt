-- ===== src/Configuration.antt =====
-- src/config_migration.rs: the configuration file's schema, its migration and rollback.
pub mod Backup
pub mod Secrets
pub mod Migration
