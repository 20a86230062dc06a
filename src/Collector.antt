-- ===== src/Collector.antt =====
-- crates/syspilot-collector/src/lib.rs: the bounded hand-over of kernel events to the correlator.
pub mod Queue
pub mod Ingress
pub mod Backlog
pub mod Accounting
