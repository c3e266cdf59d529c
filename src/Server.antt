-- ===== src/Server.antt =====
-- The server: what it does with a connection from its CONNECT on.
pub mod Frames
pub mod Authentication
pub mod World
pub mod Pipelines
pub mod Connect
pub mod Wrapper
pub mod Observer
mod Tests
