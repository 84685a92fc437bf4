-- ===== src/Tests.antt =====
-- The theorems at concrete inputs: a server with opaque tokens and in-memory storage.
mod Sample
mod Runs
mod Exchange
mod Tokens
mod Registration
mod Storage
mod Flow
mod Handlers
