-- ===== src/Mfa.antt =====
-- Second factors: what a session may claim after one (campusid/mfa/assurance.py).
pub mod Assurance
pub mod Evidence
mod Examples
