-- ===== src/Connection.antt =====
-- The server's connections: src/server/connection/manager.
pub mod Shards
pub mod Info
pub mod Manager
mod Tests
