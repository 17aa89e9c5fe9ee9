-- ===== src/Directory.antt =====
-- Values that go into LDAP filters and distinguished names (campusid/directory/escaping.py).
pub mod Escaping
pub mod FilterSafety
pub mod DnSpaces
mod Examples
