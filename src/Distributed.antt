-- ===== src/Distributed.antt =====
-- src/distributed.rs: telemetry envelopes, the privacy boundary, delivery and process-name alerts.
pub mod Redaction
pub mod Envelope
pub mod Distinct
pub mod Rules
pub mod Acknowledgement
