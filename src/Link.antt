-- ===== src/Link.antt =====
-- The client's connection joined to a session of the server: requests and their effect on the other side.
pub mod Defs
mod Steps
pub mod InStep
pub mod Read
pub mod Write
mod Examples
