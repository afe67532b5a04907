-- ===== src/Bytes/Formats.antt =====
-- Encoders and decoders over byte buffers, and the judgements by which their layouts are proved.
mod Defs
mod Rules
unfoldable pub use Defs.*
pub use Rules.*
