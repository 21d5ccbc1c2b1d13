-- ===== src/Automation.antt =====
-- domain/automation: the versioned assets that flows are built from.
pub mod Revision
pub mod Asset
pub mod ElementTarget
pub mod FlowStep
pub mod FlowFragment
pub mod HealStreak
