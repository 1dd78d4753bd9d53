-- ===== src/Server.antt =====
-- The server, server/server.go.
pub mod State
pub mod Monad
pub mod Registry
pub mod Kv
pub mod Sync
pub mod Stubs
