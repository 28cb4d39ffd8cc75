-- ===== src/Campaigns/Store.antt =====
-- src/crm/repositories/campaigns.py: the tables, and the governed writes on them.
pub mod Rows
pub mod Lifecycle
pub mod Participants
pub mod Progression
pub mod Records
pub mod Prompts
pub mod Saving
pub mod Reconcile
pub mod Commands
pub mod Laws
mod Tests
mod GraphTests
