-- ===== src/Client.antt =====
-- The crate rdows-client.
pub mod CompletionQueue
pub mod LocalMemory
pub mod Wire
pub mod Connection
pub mod Connect
mod QueueKept
mod Ending
mod Posting
mod Answers
mod Completions
pub mod Buffers
pub mod Rounds
pub mod Exchange
mod Receiving
mod Waiting
pub mod Verbs
mod Examples
