-- ===== src/Lib.antt =====
-- SystemPilot: a host diagnostics agent whose kernel events become death reports.
--
-- The parts, and how they interact. eBPF programs write fixed-size records
-- (crates/syspilot-abi/src/lib.rs); the collector decodes them and queues them by priority
-- (crates/syspilot-collector/src/lib.rs); one correlator thread takes them, keeps a bounded
-- timeline for each process and classifies a death when the group leader exits (src/forensics).
-- Process events also go through the alert rules (src/distributed.rs) and the life cycle of alerts
-- (src/alert.rs); telemetry is redacted, spooled on disk (src/spool.rs) and sent in batches that a
-- collector acknowledges (src/distributed.rs); that collector (crates/syspilot-cloud/src/lib.rs)
-- checks, admits and stores a batch in one transaction. The agent's daemon also reads the kernel's
-- process-connector messages (src/netlink.rs, src/daemon.rs), keeps a process tree and records each
-- event. On demand the agent traces a symptom through the graph of processes and resources to its
-- causes (src/causal_engine.rs), keeps an index of the workspace in a file (src/codebase.rs), and
-- captures evidence that it stores as cases for a time (src/evidence.rs). Every program that loads
-- the configuration first migrates its file to the current schema and moves the secrets in it to
-- files of their own (src/config_migration.rs, src/credentials.rs).
--
-- Which file models which part:
--   Base                 shared names, tests, lists, equality and maps.
--   Abi, Abi/Words       the record types and `decode` functions of crates/syspilot-abi/src/lib.rs;
--   Abi/Layout           the producer's layout, Abi/Decoding and Abi/RoundTrip the theorems.
--   Collector/Queue      `SpscRing`, over the queue of the crate `crossbeam-queue` as a parameter;
--   Collector/Ingress    `PriorityIngress`; Collector/Backlog and Collector/Accounting the theorems.
--   Forensics/Events     src/forensics/events.rs.
--   Forensics/Classifier src/forensics/classifier.rs, with theorems in Verdicts and Justified.
--   Forensics/Correlator src/forensics/correlator.rs, with theorems in Bounds, Deaths, Loss and Order.
--   Alert                src/alert.rs, with theorems in Lifecycle, Persistence and Status.
--   Distributed          src/distributed.rs: Redaction (`redact_value`), Envelope (`TelemetryEnvelope`
--                        and `ExportPolicy`), Rules (`ProcessAlertEngine` and the configuration) and
--                        Acknowledgement, with theorems in Paths, Evaluation and Soundness.
--   Spool                src/spool.rs, with theorems in Files, Sequence, Pending and Capacity.
--   Export               `TelemetryPublisher::publish` and a round of `spawn_export_worker` of
--                        src/distributed.rs over the spool, with theorems in Publish, Kept, Origin and
--                        Delivery.
--   Cloud                crates/syspilot-cloud/src/lib.rs: Timestamp (`UnixTimestamp`), Circuit
--                        (`DeliveryCircuit`), Admission with Permits and Balance, Database (the SQL
--                        statements as an interface), Ingest (what `ingest` calls) and Server
--                        (`ingest`), with theorems in Tallies, Agreement, Acknowledged and Rollback.
--   Netlink              `parse_frames` of src/netlink.rs, with Termination.
--   Codebase             `VectorDb` of src/codebase.rs: Binary (`encode_binary` is what `save_to_binary`
--                        writes, `decode_binary` what reads it; Reading, RoundTrip) and Storage (the
--                        files; Replacement).
--   CausalEngine         `CausalGraph` and `trace_root_cause` of src/causal_engine.rs, with Universe,
--                        Pushing and Coverage.
--   Daemon               src/daemon.rs: `record_event` and the process tree; Daemon/Listener the loop of
--                        `netlink_listener` over received bytes; theorems in Tree, Queue, Recording,
--                        Agreement and Termination.
--   Disk                 the files that the next three write: the calls of `std::fs` on a map by
--                        paths, and what a write beside the target leaves (Atomic).
--   Credentials          src/credentials.rs, with theorems in Storing and Leftover.
--   Configuration        src/config_migration.rs: Backup (`immutable_backup`, `atomic_write`), Secrets
--                        (`migrate_secret`) and Migration (`load_and_migrate`, `rollback`), with
--                        theorems in Immutable, Written, Moved, Secret, Upgrade, Load, Whole and Rollback.
--   Evidence             src/evidence.rs: Capture, Directory and Store, with theorems in Retention,
--                        Shrinking, Saved and Captured.
--   Json                 the values of serde_json. Error: the kinds of `AppError` of src/error.rs.
--   Tests                concrete inputs.
--
-- Numbers are natural numbers; a `u64` that the code increments wraps at 2 ^ 64, and an `i32` is
-- its bit pattern. A text is the list of its code points, a `VecDeque` the list of its elements, a
-- `HashMap` an association list and a `BTreeMap` one in the order of its keys. The outcome of a
-- write, or of the system calls of an operation, is an argument of it. The loops run over lists,
-- and the attempts of the export worker over their number, `max_retries + 1`. Three things take
-- fuel: the digits of a number, twenty decimal or sixteen hexadecimal, as a `u64` has no more;
-- `parse_frames` and `listen` the number of the bytes, as a round moves on by sixteen at least;
-- `trace_root_cause` one more than twice the number of the edges, as it visits the start and the
-- ends of edges, each once. An `f32` is its bit pattern, an `f64` a parameter with its order.
--
-- Not modelled: input and output, sockets, threads other than as sequences of atomic operations,
-- the embedded SQL, the workers of the cloud, the construction of the graph from procfs, the
-- ranking of the index by floats, the daemon's socket and health file, what src/config.rs
-- does with the fields of the configuration, the command line and the terminal.
pub mod Base
pub mod Error
pub mod Alert
pub mod Credentials
pub mod Distributed
pub mod Spool
pub mod Export
pub mod Cloud
pub mod Netlink
pub mod Codebase
pub mod CausalEngine
pub mod Daemon
pub mod Disk
pub mod Json
pub mod Configuration
pub mod Evidence
pub mod Abi
pub mod Forensics
pub mod Collector
mod Tests
