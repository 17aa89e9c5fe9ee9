-- ===== src/Scim/Bulk.antt =====
-- campusid/scim/bulk.py and campusid/scim/bulk_runner.py: a bulk request is read, ordered and run.
pub mod Document
pub mod References
pub mod Order
pub mod Ordering
pub mod Sequencing
pub mod Cycles
pub mod Resolution
pub mod Request
pub mod Runner
pub mod Running
pub mod WellFormed
pub mod Parsing
pub mod PatchFailure
mod Examples
