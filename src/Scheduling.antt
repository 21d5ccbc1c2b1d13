-- ===== src/Scheduling.antt =====
-- application/scheduling: the serial advance of an execution instance, and the commands on it.
pub mod Decision
pub mod Port
pub mod Coordinator
pub mod Command
pub mod Digest
