-- ===== src/Policy.antt =====
-- The attribute release policy (campusid/policy): what a service provider learns about a person.
pub mod Attributes
pub mod Release
pub mod Minimal
pub mod Scopes
mod Examples
pub mod Normalize
mod ScopeExamples
