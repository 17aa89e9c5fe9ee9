-- ===== src/Session.antt =====
-- Server-side sessions: campusid/session/store.py.
pub mod Store
pub mod Lifetime
pub mod Moves
mod Examples
