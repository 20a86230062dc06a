-- ===== src/Cloud.antt =====
-- crates/syspilot-cloud/src/lib.rs: the collector that ingests telemetry.
pub mod Api
pub mod Circuit
pub mod Timestamp
pub mod Admission
pub mod Database
pub mod Ingest
pub mod Server
