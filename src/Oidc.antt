-- ===== src/Oidc.antt =====
-- internal/oidc: errors, the effects of a handler, the configuration, and the context of a request.
pub mod ErrorCode
pub mod Effect
pub mod Library
pub mod Config
pub mod Context
pub mod Http
pub mod Keys
pub mod Algorithms
