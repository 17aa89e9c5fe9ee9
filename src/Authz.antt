-- ===== src/Authz.antt =====
-- The authorization engine (campusid/authz): the deny-overrides evaluation of a policy.
pub mod Engine
pub mod Combine
mod Examples
