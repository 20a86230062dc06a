-- ===== src/Forensics.antt =====
-- src/forensics: passive process-death forensics, as events, classification and correlation.
pub mod Events
pub mod Classifier
pub mod Correlator
