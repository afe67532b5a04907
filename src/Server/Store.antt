-- ===== src/Server/Store.antt =====
-- The memory regions of a session (crates/rdows-server/src/memory_store.rs).
mod Defs
pub mod Invariant
pub mod Register
pub mod Deregister
pub mod View
pub mod Access
pub mod Atomic
pub mod Isolation
pub mod Lifecycle
pub mod Examples
unfoldable pub use Defs.*
