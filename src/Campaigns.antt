-- ===== src/Campaigns.antt =====
-- The Campaigns module (src/crm/campaigns and src/crm/repositories/campaigns.py).
pub mod Models
pub mod Graph
pub mod Store
pub mod Briefing
pub mod Service
