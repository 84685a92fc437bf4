-- ===== src/Token/Stored.antt =====
-- What the token endpoint (internal/token) does to the grant sessions that are stored.
pub mod Frame
pub mod Reach
pub mod Renewal
pub mod Within
