-- ===== src/Scim/Patch.antt =====
-- campusid/scim/patch.py: the operations of a PATCH are read and applied to a resource.
pub mod Attributes
pub mod Apply
pub mod Stored
pub mod Kept
pub mod Immutable
pub mod Overwrites
pub mod Selected
pub mod Read
pub mod Accepted
mod Examples
