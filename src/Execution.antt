-- ===== src/Execution.antt =====
-- domain/execution: the states of an instance and of its entries, and what bounds them.
pub mod Status
pub mod Coordinate
pub mod Snapshot
pub mod InvocationPath
pub mod Budget
pub mod Instance
