-- ===== src/Campaigns/Store/Laws.antt =====
-- The laws of the writes of src/crm/repositories/campaigns.py.
mod Gates
mod Steps
mod Changes
mod Work
pub mod Retired
pub mod Isolation
pub mod Settled
pub mod Unique
pub mod Versions
pub mod Stale
pub mod Routing
pub mod Refused
pub mod Once
