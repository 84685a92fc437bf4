-- ===== src/Authorize.antt =====
-- internal/authorize: the authorization endpoint.
pub mod Request
pub mod Validation
pub mod Jar
pub mod Redirect
pub mod Checks
pub mod Session
pub mod Flow
