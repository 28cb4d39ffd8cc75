-- ===== src/Transfers.antt =====
-- src/crm/repositories/transfers and src/crm/portability: imports, from the upload of a file to the
-- queue, and the portable package of an export. The worker that takes a job from the queue is not in
-- the repository.
pub mod Rows
pub mod Assess
pub mod Jobs
pub mod Uploads
pub mod Planning
pub mod Commands
pub mod Packing
pub mod Parsing
pub mod Uploading
pub mod Laws
mod Tests
