-- ===== src/Campaigns/Graph.antt =====
-- src/crm/campaigns/graph.py
pub mod Closure
pub mod Cycles
pub mod Diagnostics
pub mod Transitions
pub mod StepChecks
pub mod Changes
pub mod Validate
mod Tests
