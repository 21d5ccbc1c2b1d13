-- ===== src/Node.antt =====
-- domain/node: the execution of steps.
pub mod Retry
