-- ===== src/Bytes.antt =====
-- Byte buffers. The code reads and writes them through the traits `Buf` and `BufMut` of the crate
-- `bytes`, which is not part of the repository: its functions are the parameter `BufApi`, and what
-- their documentation promises is `IsBufApi`. A buffer is the list of the bytes that are left in
-- it to read, or that were written to it.
mod Order
mod Api
pub mod Formats
pub mod ListApi
pub mod Utf8
pub mod Ranges
pub mod Texts
unfoldable pub use Order.*
pub use Api.*
