-- ===== src/Audit.antt =====
-- The audit trail's hash chain (campusid/audit/chain.py, and the chain's reader and writer in
-- campusid/audit/log.py).
pub mod Chain
pub mod Batches
pub mod Tamper
mod Examples
