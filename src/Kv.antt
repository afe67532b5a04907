-- ===== src/Kv.antt =====
-- The crate rdows-kv.
pub mod Slot
pub mod Dump
pub mod Results
mod Zeros
pub mod Codec
pub mod Totality
pub mod Store
pub mod Remote
pub mod Table
pub mod ReadSlot
pub mod Lookup
pub mod Rewritten
pub mod GetPut
pub mod GetDelete
pub mod WriteSlot
mod Examples
mod Runs
