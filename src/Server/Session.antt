-- ===== src/Server/Session.antt =====
-- Sessions of the server (crates/rdows-server/src/session.rs, handler.rs).
mod Defs
pub mod Handlers
pub mod Messages
pub mod Numbering
pub mod Replies
pub mod Runs
pub mod Steps
pub mod Exchanges
pub mod Accepted
pub mod Refusals
pub mod Examples
unfoldable pub use Defs.*
