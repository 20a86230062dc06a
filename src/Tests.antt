-- ===== src/Tests.antt =====
-- Concrete inputs: tests of the definitions, and the theorems at inputs that meet their hypotheses.
mod Abi
mod Forensics
mod Collector
mod Alert
mod Distributed
mod Spool
mod Export
mod Cloud
mod Netlink
mod Codebase
mod Configuration
mod Credentials
mod Evidence
mod CausalEngine
mod Daemon
