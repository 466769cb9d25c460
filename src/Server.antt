-- ===== src/Server.antt =====
-- src/server.rs: the daemon's HTTP API.
pub mod Api
pub mod State
pub mod Validate
pub mod Post
pub mod Outbox
pub mod Tasks
