-- ===== src/Core/Message.antt =====
-- The messages, with a child for each payload (crates/rdows-core/src/message.rs).
pub mod Connect
pub mod MrRegAck
pub mod MrDereg
pub mod MrDeregAck
pub mod ReadReq
pub mod CreditUpdate
pub mod AtomicReq
pub mod AtomicResp
pub mod MrReg
pub mod Send
pub mod DataBytes
pub mod Write
pub mod ReadResp
pub mod ErrorReply
mod Defs
pub mod RoundTrip
pub mod Totality
unfoldable pub use Defs.*
