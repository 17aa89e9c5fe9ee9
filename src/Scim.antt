-- ===== src/Scim.antt =====
-- campusid/scim: the filter language, the bulk requests and the patches of the provisioning
-- interface.
pub mod Filter
pub mod Bulk
pub mod Patch
