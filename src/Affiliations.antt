-- ===== src/Affiliations.antt =====
-- The periods in which a contact belongs to a company: src/crm/models/affiliations.py, and the writes of
-- src/crm/repositories/contacts/affiliations.py.
pub mod Periods
pub mod Calendar
pub mod Rows
pub mod Writes
pub mod Primary
mod Tests
