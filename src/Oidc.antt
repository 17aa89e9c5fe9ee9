-- ===== src/Oidc.antt =====
-- The OpenID provider's single-use credentials (campusid/oidc/grants.py) and PKCE
-- (campusid/oidc/pkce.py).
pub mod Errors
pub mod Pkce
pub mod Charset
pub mod Padding
pub mod Challenge
pub mod Grants
mod Examples
mod PkceExamples
