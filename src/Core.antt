-- ===== src/Core.antt =====
-- The crate rdows-core: the types of the wire format and their encoding.
pub mod Opcode
pub mod Error
pub mod Need
pub mod Fields
pub mod Message
pub mod Queue
pub mod Memory
pub mod Tags
pub mod Frame
pub mod Subprotocol
mod Examples
