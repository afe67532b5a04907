-- ===== src/Core/Queue.antt =====
-- Work queue entries (crates/rdows-core/src/queue.rs).
pub mod Entry
pub mod Entries
pub mod Completion
