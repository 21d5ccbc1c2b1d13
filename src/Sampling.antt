-- ===== src/Sampling.antt =====
-- domain/sampling: the interactive recording of a flow.
pub mod Session
