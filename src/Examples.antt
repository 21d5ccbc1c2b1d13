-- ===== src/Examples.antt =====
-- Tests on concrete inputs, and the theorems applied to them.
mod Scheduling
mod Instance
mod Interpolation
mod Heal
mod Sampling
mod Retry
mod Automation
mod FlowFragment
mod HealStreak
mod Commands
mod Budget
mod InvocationPath
