-- ===== src/Lifecycle.antt =====
-- The lifecycle rules and the retried writes: campusid/lifecycle/rules.py and retry.py.
pub mod Rules
pub mod Document
pub mod Loader
pub mod Revoking
pub mod Transitions
pub mod Declared
pub mod Accepted
pub mod Grace
pub mod Loads
pub mod Retry
pub mod Attempts
mod Examples
mod RetryExamples
