-- ===== src/Token.antt =====
-- internal/token: the token endpoint and what it shares with the other endpoints.
pub mod Model
pub mod Pop
pub mod Binding
pub mod Make
pub mod Frame
pub mod IdToken
pub mod Pkce
pub mod AuthzCode
pub mod RefreshToken
pub mod ClientCredentials
pub mod Claims
pub mod Stored
pub mod Introspection
