-- ===== src/Server.antt =====
-- The crate rdows-server.
pub mod Store
pub mod Texts
pub mod Session
pub mod Tracker
mod Sessions
mod Sharing
mod Examples
