-- ===== src/Model.antt =====
-- pkg/goidc: the data that clients, sessions and requests consist of.
pub mod Const
pub mod Value
pub mod Params
pub mod Client
pub mod Session
